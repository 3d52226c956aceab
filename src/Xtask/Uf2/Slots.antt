-- ===== src/Xtask/Uf2/Slots.antt =====
-- xtask/src/main.rs: the chunks of a list, and the blocks of an image.
use cro_pduster.Prelude.{
  ℕ, zero, suc, ◌+◌, ◌-◌, ◌*◌, ◌%◌, ◌^◌, ◌≤◌, ◌≡◌, refl, ap, ◌∙◌, List, [], ◌∷◌, ◌++◌, Bytes,
  length, take, drop, replicate, length-append, length-replicate, arith,
}
use cro_pduster.Xtask.Uf2.{chunks_by, uf2_block, uf2_blocks, concat}

pub take-append : {A : Type 0} (xs ys : List A) → take (length xs) (xs ++ ys) ≡ xs
take-append [] ys = refl
take-append (x ∷ xs) ys = ap (λ l. x ∷ l) (take-append xs ys)

pub drop-append : {A : Type 0} (xs ys : List A) → drop (length xs) (xs ++ ys) ≡ ys
drop-append [] ys = refl
drop-append (x ∷ xs) ys = drop-append xs ys

-- The payload of a block: the chunk, filled with zeros.
abbrev pub padded : Bytes → Bytes
padded chunk = chunk ++ replicate (256 - length chunk) 0

take-replicate :
    {A : Type 0} (m k : ℕ) (a : A) (ys : List A)
    → m ≤ k
    → take m (replicate k a ++ ys) ≡ replicate m a
take-replicate zero k a ys h = refl
take-replicate (suc m) zero a ys h = absurd (omega arith)
take-replicate (suc m) (suc k) a ys h = ap (λ l. a ∷ l) (take-replicate m k a ys (omega arith))

take-append_past :
    {A : Type 0} (n : ℕ) (xs ys : List A)
    → length xs ≤ n
    → take n (xs ++ ys) ≡ xs ++ take (n - length xs) ys
take-append_past n [] ys h = ap (λ k. take k ys) (omega arith)
take-append_past zero (x ∷ xs) ys h = absurd (omega arith)
take-append_past (suc n) (x ∷ xs) ys h =
    ap (λ l. x ∷ l)
      (take-append_past n xs ys (omega arith)
        ∙ ap (λ k. xs ++ take k ys)
            (let e : n - length xs ≡ suc n - suc (length xs) = omega arith in e))

pub take-payload :
    (chunk ys : Bytes)
    → length chunk ≤ 256
    → take 256 (chunk ++ (replicate (476 - length chunk) 0 ++ ys)) ≡ padded chunk
take-payload chunk ys h =
    take-append_past 256 chunk (replicate (476 - length chunk) 0 ++ ys) h
    ∙ ap (λ l. chunk ++ l)
        (take-replicate (256 - length chunk) (476 - length chunk) 0 ys (omega arith))

pub length-uf2_block :
    (addr i num_blocks : ℕ) (chunk : Bytes)
    → length chunk ≤ 256
    → length (uf2_block addr i num_blocks chunk) ≡ 512
length-uf2_block addr i num_blocks chunk h = omega (
  arith,
  length-append chunk (replicate (476 - length chunk) 0 ++ (0x30 ∷ 0x6F ∷ 0xB1 ∷ 0x0A ∷ [])),
  length-append (replicate {A = ℕ} (476 - length chunk) 0) (0x30 ∷ 0x6F ∷ 0xB1 ∷ 0x0A ∷ []),
  length-replicate {A = ℕ} (476 - length chunk) 0,
)

pub take_exact : {A : Type 0} (n : ℕ) (xs ys : List A) → length xs ≡ n → take n (xs ++ ys) ≡ xs
take_exact n xs ys h = rw (← h) (take-append xs ys)

pub drop_exact : {A : Type 0} (n : ℕ) (xs ys : List A) → length xs ≡ n → drop n (xs ++ ys) ≡ ys
drop_exact n xs ys h = rw (← h) (drop-append xs ys)

-- Blocks of one size.
abbrev pub Each : ℕ → List Bytes → Type 0
Each n [] = Unit
Each n (b ∷ bs) = (length b ≡ n) × Each n bs

-- Blocks that were put together are the chunks.
pub chunks_by-concat :
    (rounds n : ℕ) (bs : List Bytes)
    → Each (suc n) bs
    → length bs ≤ rounds
    → chunks_by rounds (suc n) (concat bs) ≡ bs
chunks_by-concat zero n [] e h = refl
chunks_by-concat (suc rounds) n [] e h = refl
chunks_by-concat zero n (b ∷ bs) e h = absurd (omega arith)
chunks_by-concat (suc rounds) n ([] ∷ bs) (e, es) h = absurd (omega arith)
chunks_by-concat (suc rounds) n ((x ∷ b) ∷ bs) (e, es) h = rw (
  take_exact n b (concat bs) (omega arith),
  drop_exact n b (concat bs) (omega arith),
  chunks_by-concat rounds n bs es (omega arith),
)

pub length-concat : (n : ℕ) (bs : List Bytes) → Each n bs → length (concat bs) ≡ length bs * n
length-concat n [] e = omega arith
length-concat n (b ∷ bs) (e, es) = grind (arith, length-append b (concat bs), length-concat n bs es)

-- Chunks of at most 256 bytes.
abbrev pub Small : List Bytes → Type 0
Small [] = Unit
Small (c ∷ cs) = (length c ≤ 256) × Small cs

pub uf2_blocks-Each :
    (base_addr num_blocks i : ℕ) (cs : List Bytes)
    → Small cs
    → Each 512 (uf2_blocks base_addr num_blocks i cs)
uf2_blocks-Each base_addr num_blocks i [] s = tt
uf2_blocks-Each base_addr num_blocks i (c ∷ cs) (s, ss) = (
  length-uf2_block ((base_addr + i * 256) % 2 ^ 32) i num_blocks c s,
  uf2_blocks-Each base_addr num_blocks (suc i) cs ss,
)
