-- ===== src/Xtask/Uf2/Entries.antt =====
-- xtask/src/main.rs: what is read from the blocks of an image, and where it is placed.
use cro_pduster.Prelude.{
  ℕ, zero, suc, ◌+◌, ◌-◌, ◌*◌, ◌/◌, ◌%◌, ◌^◌, ◌≤◌, ◌<◌, ◌≡◌, refl, sym, ap, ◌∙◌, true, false, List,
  [], ◌∷◌, ◌++◌, Bytes, length, drop, replicate, length-append, length-replicate, leb, ltb, arith,
  append_assoc,
}
use cro_pduster.Xtask.Uf2.{
  active_start, uf2_block, uf2_blocks, active_blocks, insert_block, sort_blocks, copy_at,
  place_blocks, last_addr,
}
use cro_pduster.Xtask.Uf2.Slots.{
  padded, take-payload, length-uf2_block, take_exact, drop_exact, Small,
}

-- What the blocks from number `i` on hold, and what all of it is.
abbrev pub entries : ℕ → ℕ → List Bytes → List (ℕ × Bytes)
entries base_addr i [] = []
entries base_addr i (c ∷ cs) = (base_addr + i * 256, padded c) ∷ entries base_addr (suc i) cs

abbrev pub payloads : List Bytes → Bytes
payloads [] = []
payloads (c ∷ cs) = padded c ++ payloads cs

-- A `u32` is its four bytes.
le_lem :
    (n : ℕ)
    → n < 4294967296
    → n % 256 + 256 * (n / 256 % 256) + 65536 * (n / 65536 % 256) + 16777216 * (n / 16777216 % 256)
      ≡ n
le_lem n h = omega arith

pub active_blocks-uf2_blocks :
    (base_addr num_blocks i : ℕ) (cs : List Bytes)
    → Small cs
    → active_start ≤ base_addr
    → base_addr + (i + length cs) * 256 ≤ 2 ^ 32
    → active_blocks (uf2_blocks base_addr num_blocks i cs) ≡ entries base_addr i cs
active_blocks-uf2_blocks base_addr num_blocks i [] s lo hi = refl
active_blocks-uf2_blocks base_addr num_blocks i (c ∷ cs) (s, ss) lo hi =
    let addr : ℕ = (base_addr + i * 256) % 2 ^ 32 in
    let same : addr ≡ base_addr + i * 256 = omega arith in
    let here : ltb (length (uf2_block addr i num_blocks c)) 512 ≡ false =
      ground (arith, length-uf2_block addr i num_blocks c s) in
    let above : ltb (base_addr + i * 256) active_start ≡ false = ground arith in
    let rest = active_blocks-uf2_blocks base_addr num_blocks (suc i) cs ss lo (omega arith) in
    rw (
      here,
      le_lem addr (omega arith),
      same,
      above,
      take-payload c (0x30 ∷ 0x6F ∷ 0xB1 ∷ 0x0A ∷ []) s,
      rest,
    )

insert_block-entries :
    (base_addr i : ℕ) (p : Bytes) (cs : List Bytes)
    → insert_block (base_addr + i * 256, p) (entries base_addr (suc i) cs)
      ≡ (base_addr + i * 256, p) ∷ entries base_addr (suc i) cs
insert_block-entries base_addr i p [] = refl
insert_block-entries base_addr i p (c ∷ cs) =
    let le : leb (base_addr + i * 256) (base_addr + suc i * 256) ≡ true = ground arith in rw le

pub sort_blocks-entries :
    (base_addr i : ℕ) (cs : List Bytes)
    → sort_blocks (entries base_addr i cs) ≡ entries base_addr i cs
sort_blocks-entries base_addr i [] = refl
sort_blocks-entries base_addr i (c ∷ cs) =
    rw (sort_blocks-entries base_addr (suc i) cs, insert_block-entries base_addr i (padded c) cs)

pub last_addr-entries :
    (base_addr i : ℕ) (cs : List Bytes)
    → last_addr (base_addr + i * 256) (entries base_addr (suc i) cs)
      ≡ base_addr + (i + length cs) * 256
last_addr-entries base_addr i [] = omega arith
last_addr-entries base_addr i (c ∷ cs) = last_addr-entries base_addr (suc i) cs ∙ omega arith

length-padded : (c : Bytes) → length c ≤ 256 → length (padded c) ≡ 256
length-padded c s = omega (
  arith,
  length-append c (replicate (256 - length c) 0),
  length-replicate {A = ℕ} (256 - length c) 0,
)

replicate-add : (m n a : ℕ) → replicate (m + n) a ≡ replicate m a ++ replicate n a
replicate-add zero n a = ap (λ k. replicate k a) (omega arith)
replicate-add (suc m) n a =
    ap (λ k. replicate k a) (let e : suc m + n ≡ suc (m + n) = omega arith in e)
    ∙ ap (λ l. a ∷ l) (replicate-add m n a)

copy_at_lem :
    (off : ℕ) (d p z y : Bytes)
    → length d ≡ off
    → length p ≡ length z
    → copy_at off p (d ++ (z ++ y)) ≡ d ++ (p ++ y)
copy_at_lem off d p z y e h =
    let front = take_exact off d (z ++ y) e in
    let behind : drop (off + length p) (d ++ (z ++ y)) ≡ y =
      rw (← append_assoc d z y)
        (drop_exact (off + length p) (d ++ z) y (omega (arith, length-append d z))) in
    rw (front, behind) (append_assoc d p y)

pub place_blocks-entries :
    (base_addr i : ℕ) (cs : List Bytes) (d : Bytes)
    → Small cs
    → length d ≡ i * 256
    → place_blocks base_addr (entries base_addr i cs) (d ++ replicate (length cs * 256) 0xFF)
      ≡ d ++ payloads cs
place_blocks-entries base_addr i [] d s e = refl
place_blocks-entries base_addr i (c ∷ cs) d (s, ss) e =
    let p = padded c in
    let lp = length-padded c s in
    let off : base_addr + i * 256 - base_addr ≡ i * 256 = omega arith in
    let size : suc (length cs) * 256 ≡ 256 + length cs * 256 = omega arith in
    let copied =
      copy_at_lem (i * 256) d p (replicate 256 0xFF) (replicate (length cs * 256) 0xFF) e lp in
    let rest =
      place_blocks-entries base_addr (suc i) cs (d ++ p) ss (omega (arith, length-append d p)) in
    let step : copy_at (base_addr + i * 256 - base_addr) p
          (d ++ replicate (suc (length cs) * 256) 0xFF)
        ≡ (d ++ p) ++ replicate (length cs * 256) 0xFF =
      rw (off, size, replicate-add 256 (length cs * 256) 0xFF, copied)
        (sym (append_assoc d p (replicate (length cs * 256) 0xFF))) in
    ap (place_blocks base_addr (entries base_addr (suc i) cs)) step
    ∙ rest
    ∙ append_assoc d p (payloads cs)
