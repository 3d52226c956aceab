-- ===== src/Xtask/Elf/Placement.antt =====
-- xtask/src/main.rs: where each byte of a segment stands in the flat image.
use cro_pduster.Prelude.{
  ℕ, zero, suc, ◌+◌, ◌-◌, ◌≤◌, ◌<◌, ◌≡◌, refl, ap, ◌∙◌, List, [], ◌∷◌, ◌++◌, length, get_or, take,
  drop, replicate, length-append, length-take, length-drop, length-replicate, get_or-append,
  get_or-replicate, ltb, leb, ◌&&◌, if◌then◌else◌, arith,
}
use Prim.Native.Nat.{max}
use cro_pduster.Outcome.{ok}
use cro_pduster.Xtask.Uf2.{copy_at}
use cro_pduster.Xtask.Elf.{Segment, max_extent, place_segments, flat_segments}

-- The byte at `j` of an image of segments: of the last one that covers it, or `filler`.
abbrev pub segment_byte : List Segment → ℕ → ℕ → ℕ
segment_byte [] filler j = filler
segment_byte (s ∷ ss) filler j =
    segment_byte ss
      (if leb s.offset j && ltb j (s.offset + length s.content)
        then get_or s.content (j - s.offset) 0
        else filler)
      j

pub get_or-take :
    (n : ℕ) (xs : List ℕ) (j d : ℕ)
    → get_or (take n xs) j d ≡ (if ltb j n then get_or xs j d else d)
get_or-take zero xs j d = ground arith
get_or-take (suc n) [] j d = ground arith
get_or-take (suc n) (x ∷ xs) zero d = ground arith
get_or-take (suc n) (x ∷ xs) (suc j) d = ground (arith, get_or-take n xs j d)

pub get_or-drop : (n : ℕ) (xs : List ℕ) (j d : ℕ) → get_or (drop n xs) j d ≡ get_or xs (n + j) d
get_or-drop zero xs j d = ap (λ k. get_or xs k d) (omega arith)
get_or-drop (suc n) [] j d = refl
get_or-drop (suc n) (x ∷ xs) j d =
    get_or-drop n xs j d
    ∙ ap (λ k. get_or (x ∷ xs) k d) (let e : suc (n + j) ≡ suc n + j = omega arith in e)

get_or-in : (xs : List ℕ) (j d e : ℕ) → j < length xs → get_or xs j d ≡ get_or xs j e
get_or-in [] j d e h = absurd (omega arith)
get_or-in (x ∷ xs) zero d e h = refl
get_or-in (x ∷ xs) (suc j) d e h = get_or-in xs j d e (omega arith)

length-copy_at :
    (off : ℕ) (p bin : List ℕ)
    → off + length p ≤ length bin
    → length (copy_at off p bin) ≡ length bin
length-copy_at off p bin h = omega (
  arith,
  length-append (take off bin ++ p) (drop (off + length p) bin),
  length-append (take off bin) p,
  length-take off bin,
  length-drop (off + length p) bin,
)

behind :
    (off : ℕ) (p bin : List ℕ) (j : ℕ)
    → off + length p ≤ j
    → get_or bin (off + length p + (j - (off + length p))) 0xFF ≡ get_or bin j 0xFF
behind off p bin j h = ap (λ k. get_or bin k 0xFF) (omega arith)

get_or-copy_at :
    (off : ℕ) (p bin : List ℕ) (j : ℕ)
    → off + length p ≤ length bin
    → get_or (copy_at off p bin) j 0xFF
      ≡ (if leb off j && ltb j (off + length p) then get_or p (j - off) 0 else get_or bin j 0xFF)
get_or-copy_at off p bin j h =
    let front : length (take off bin) ≡ off = omega (arith, length-take off bin) in
    let both : length (take off bin ++ p) ≡ off + length p =
      omega (arith, length-append (take off bin) p, front) in
    rw
      (
        get_or-append (take off bin ++ p) (drop (off + length p) bin) j 0xFF,
        both,
        get_or-append (take off bin) p j 0xFF,
        front,
        get_or-take off bin j 0xFF,
        get_or-drop (off + length p) bin (j - (off + length p)) 0xFF,
      )
      (ground (arith, get_or-in p (j - off) 0xFF 0, behind off p bin j))

pub max_extent_ge : (ss : List Segment) (n : ℕ) → n ≤ max_extent ss n
max_extent_ge [] n = omega arith
max_extent_ge (s ∷ ss) n = omega (arith, max_extent_ge ss (max n (s.offset + length s.content)))

-- Segments that lie inside the image.
place_segments_lem :
    (ss : List Segment) (bin : List ℕ) (n j : ℕ)
    → max_extent ss n ≤ length bin
    → (length (place_segments ss bin) ≡ length bin)
      × (get_or (place_segments ss bin) j 0xFF ≡ segment_byte ss (get_or bin j 0xFF) j)
place_segments_lem [] bin n j h = (refl, refl)
place_segments_lem (s ∷ ss) bin n j h =
    let m = max n (s.offset + length s.content) in
    let inside : s.offset + length s.content ≤ length bin = omega (arith, max_extent_ge ss m) in
    let kept = length-copy_at s.offset s.content bin inside in
    let (same, byte) = place_segments_lem ss (copy_at s.offset s.content bin) m j (omega arith) in
    (
      same ∙ kept,
      byte ∙ ap (λ b. segment_byte ss b j) (get_or-copy_at s.offset s.content bin j inside),
    )

-- The flat image of one segment or more: it ends where the last byte of a segment does, and each byte
-- is that of the last segment that covers it, or `0xFF` in a gap.
pub flat_segments_lem :
    (s : Segment) (ss : List Segment)
    → (bin : List ℕ) × (flat_segments (s ∷ ss) ≡ ok bin)
      × (length bin ≡ max_extent (s ∷ ss) 0)
      × ((j : ℕ) → j < length bin → get_or bin j 0xFF ≡ segment_byte (s ∷ ss) 0xFF j)
flat_segments_lem s ss =
    let n = max_extent (s ∷ ss) 0 in
    let blank : List ℕ = replicate n 0xFF in
    let fits = length-replicate {A = ℕ} n 0xFF in
    (
      place_segments (s ∷ ss) blank,
      refl,
      (place_segments_lem (s ∷ ss) blank 0 0 (omega arith)).0 ∙ fits,
      λ j h.
          (place_segments_lem (s ∷ ss) blank 0 j (omega arith)).1
          ∙ ap (λ b. segment_byte (s ∷ ss) b j)
              (ground (arith, get_or-replicate {A = ℕ} n 0xFF j 0xFF)),
    )
