-- ===== src/Xtask/Uf2/RoundTrip.antt =====
-- xtask/src/main.rs: the image that is read back from its UF2 blocks.
use cro_pduster.Prelude.{
  ℕ, zero, suc, ◌+◌, ◌-◌, ◌*◌, ◌/◌, ◌%◌, ◌^◌, ◌≤◌, ◌<◌, ◌≡◌, refl, sym, ap, ◌∙◌, inl, inr, some,
  List, [], ◌∷◌, ◌++◌, Bytes, length, take, drop, replicate, length-take, length-drop,
  take-append-drop, leb, arith, append_assoc, append-nil, Bool-cases,
}
use cro_pduster.Xtask.Uf2.{
  active_start, chunks_by, chunks, uf2_blocks, concat, active_blocks, sort_blocks, place_blocks,
  last_addr, flat_image, binary_to_uf2, uf2_to_active_binary,
}
use cro_pduster.Xtask.Uf2.Slots.{padded, chunks_by-concat, length-concat, Small, uf2_blocks-Each}
use cro_pduster.Xtask.Uf2.Entries.{
  entries, payloads, active_blocks-uf2_blocks, sort_blocks-entries, last_addr-entries,
  place_blocks-entries,
}

-- The zeros behind an image of `n` bytes, up to the end of its last block.
abbrev pub zeros : ℕ → Bytes
zeros n = replicate ((256 - n % 256) % 256) 0

take_all : (n : ℕ) (xs : Bytes) → length xs ≤ n → take n xs ≡ xs
take_all zero [] h = refl
take_all zero (x ∷ xs) h = absurd (omega arith)
take_all (suc n) [] h = refl
take_all (suc n) (x ∷ xs) h = ap (λ l. x ∷ l) (take_all n xs (omega arith))

drop_all : (n : ℕ) (xs : Bytes) → length xs ≤ n → drop n xs ≡ []
drop_all zero [] h = refl
drop_all zero (x ∷ xs) h = absurd (omega arith)
drop_all (suc n) [] h = refl
drop_all (suc n) (x ∷ xs) h = drop_all n xs (omega arith)

no_chunks : (rounds : ℕ) → payloads (chunks_by rounds 256 []) ≡ []
no_chunks zero = refl
no_chunks (suc rounds) = refl

-- A full chunk, and the last one.
full_chunk :
    (l ps : Bytes)
    → 256 ≤ length l
    → ps ≡ drop 256 l ++ zeros (length (drop 256 l))
    → padded (take 256 l) ++ ps ≡ l ++ zeros (length l)
full_chunk l ps h e =
    let none_left : 256 - length (take 256 l) ≡ 0 = omega (arith, length-take 256 l) in
    let same : (256 - length (drop 256 l) % 256) % 256 ≡ (256 - length l % 256) % 256 =
      omega (arith, length-drop 256 l) in
    let full : padded (take 256 l) ≡ take 256 l = rw none_left (append-nil (take 256 l)) in
    ap (λ b. b ++ ps) full
    ∙ ap (λ b. take 256 l ++ b) (e ∙ ap (λ k. drop 256 l ++ replicate k 0) same)
    ∙ sym (append_assoc (take 256 l) (drop 256 l) (zeros (length l)))
    ∙ ap (λ b. b ++ zeros (length l)) (take-append-drop 256 l)

last_chunk :
    (rounds : ℕ) (l : Bytes)
    → 0 < length l
    → length l < 256
    → padded (take 256 l) ++ payloads (chunks_by rounds 256 (drop 256 l)) ≡ l ++ zeros (length l)
last_chunk rounds l p h =
    let rest =
      ap (λ b. payloads (chunks_by rounds 256 b)) (drop_all 256 l (omega arith))
      ∙ no_chunks rounds in
    let same : 256 - length l ≡ (256 - length l % 256) % 256 = omega arith in
    ap (λ b. padded (take 256 l) ++ b) rest
    ∙ append-nil (padded (take 256 l))
    ∙ ap padded (take_all 256 l (omega arith))
    ∙ ap (λ k. l ++ replicate k 0) same

payloads-chunks_by :
    (rounds : ℕ) (image : Bytes)
    → length image ≤ rounds
    → payloads (chunks_by rounds 256 image) ≡ image ++ zeros (length image)
payloads-chunks_by zero [] h = refl
payloads-chunks_by (suc rounds) [] h = refl
payloads-chunks_by zero (x ∷ xs) h = absurd (omega arith)
payloads-chunks_by (suc rounds) (x ∷ xs) h = elim (Bool-cases (leb 256 (length (x ∷ xs)))) [
  | inl e ↦
      full_chunk (x ∷ xs) _ (ground arith)
        (payloads-chunks_by rounds (drop 255 xs) (omega (arith, length-drop 255 xs)))
  | inr e ↦ last_chunk rounds (x ∷ xs) (omega arith) (ground arith)
]

chunks_by-Small : (rounds : ℕ) (image : Bytes) → Small (chunks_by rounds 256 image)
chunks_by-Small zero image = tt
chunks_by-Small (suc rounds) [] = tt
chunks_by-Small (suc rounds) (x ∷ xs) =
    (omega (arith, length-take 255 xs), chunks_by-Small rounds (drop 255 xs))

length-chunks_by :
    (rounds : ℕ) (image : Bytes)
    → length image ≤ rounds
    → length (chunks_by rounds 256 image) ≡ (length image + 255) / 256
length-chunks_by zero [] h = refl
length-chunks_by (suc rounds) [] h = refl
length-chunks_by zero (x ∷ xs) h = absurd (omega arith)
length-chunks_by (suc rounds) (x ∷ xs) h = omega (
  arith,
  length-chunks_by rounds (drop 255 xs) (omega (arith, length-drop 255 xs)),
  length-drop 255 xs,
)

length-uf2_blocks :
    (base_addr num_blocks i : ℕ) (cs : List Bytes)
    → length (uf2_blocks base_addr num_blocks i cs) ≡ length cs
length-uf2_blocks base_addr num_blocks i [] = refl
length-uf2_blocks base_addr num_blocks i (c ∷ cs) =
    ap suc (length-uf2_blocks base_addr num_blocks (suc i) cs)

flat_image-entries :
    (base_addr : ℕ) (c : Bytes) (cs : List Bytes)
    → Small (c ∷ cs)
    → flat_image (entries base_addr 0 (c ∷ cs)) ≡ some (payloads (c ∷ cs))
flat_image-entries base_addr c cs s =
    let size : last_addr (base_addr + 0 * 256) (entries base_addr 1 cs)
          - (base_addr + 0 * 256)
          + 256
        ≡ length (c ∷ cs) * 256 =
      omega (arith, last_addr-entries base_addr 0 cs) in
    let start : base_addr + 0 * 256 ≡ base_addr = omega arith in
    let all = entries base_addr 0 (c ∷ cs) in
    let size_0 =
      last_addr (base_addr + 0 * 256) (entries base_addr 1 cs) - (base_addr + 0 * 256) + 256 in
    ap some (
      ap (λ b. place_blocks b all (replicate size_0 0xFF)) start
      ∙ ap (λ n. place_blocks base_addr all (replicate n 0xFF)) size
      ∙ place_blocks-entries base_addr 0 (c ∷ cs) [] s refl)

-- Every block is read back, in order.
read_blocks :
    (base_addr : ℕ) (cs : List Bytes) (num_blocks : ℕ)
    → Small cs
    → active_start ≤ base_addr
    → base_addr + length cs * 256 ≤ 2 ^ 32
    → sort_blocks (active_blocks (chunks 512 (concat (uf2_blocks base_addr num_blocks 0 cs))))
      ≡ entries base_addr 0 cs
read_blocks base_addr cs num_blocks s lo hi =
    let blocks = uf2_blocks base_addr num_blocks 0 cs in
    let each = uf2_blocks-Each base_addr num_blocks 0 cs s in
    let split =
      chunks_by-concat (length (concat blocks)) 511 blocks each
        (omega (arith, length-concat 512 blocks each)) in
    ap (λ bs. sort_blocks (active_blocks bs)) split
    ∙ ap sort_blocks (active_blocks-uf2_blocks base_addr num_blocks 0 cs s lo (omega arith))
    ∙ sort_blocks-entries base_addr 0 cs

-- The image that is read back from the UF2 file of an image in the active partition is that image,
-- filled with zeros to whole blocks of 256 bytes. (It is not empty, and its blocks lie below 2^32.)
pub uf2_to_active_binary-binary_to_uf2 :
    (image : Bytes) (base_addr : ℕ)
    → 0 < length image
    → active_start ≤ base_addr
    → base_addr + length image + 255 ≤ 2 ^ 32
    → uf2_to_active_binary (binary_to_uf2 image base_addr) ≡ some (image ++ zeros (length image))
unfolding uf2_to_active_binary binary_to_uf2
uf2_to_active_binary-binary_to_uf2 [] base_addr p lo hi = absurd (omega arith)
uf2_to_active_binary-binary_to_uf2 (x ∷ xs) base_addr p lo hi =
    let image : Bytes = x ∷ xs in
    let n = length image in
    let cs = chunks 256 image in
    let small = chunks_by-Small n image in
    let count = length-chunks_by n image (omega arith) in
    ap flat_image (read_blocks base_addr cs ((n + 255) / 256) small lo (omega (arith, count)))
    ∙ flat_image-entries base_addr (x ∷ take 255 xs) (chunks_by (length xs) 256 (drop 255 xs)) small
    ∙ ap some (payloads-chunks_by n image (omega arith))
