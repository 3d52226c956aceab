-- ===== src/Text/Search.antt =====
-- Laws of the text functions.
use cro_pduster.Prelude.{
  ℕ, zero, suc, ◌<◌, ◌≡◌, ◌≢◌, refl, ap, true, some, [], ◌∷◌, ◌++◌, Bytes, length, take, drop,
  arith,
}
use cro_pduster.Text.{eq_ignore_ascii_case, find}

abbrev pub NotIn : ℕ → Bytes → Type 0
NotIn c [] = Unit
NotIn c (b ∷ bs) = (b ≢ c) × NotIn c bs

find_head : (c b : ℕ) (s : Bytes) → find c (b ∷ s) ≡ some 0 → b ≡ c
unfolding find
find_head c b s h = ground arith

find_tail :
    (c b : ℕ) (s : Bytes) (i : ℕ) → find c (b ∷ s) ≡ some (suc i) → (b ≢ c) × (find c s ≡ some i)
unfolding find
find_tail c b s i h = ground arith

-- The byte that is found is the first: the text before it does not hold it.
pub find-some :
    (c : ℕ) (s : Bytes) (i : ℕ)
    → find c s ≡ some i
    → NotIn c (take i s) × (s ≡ take i s ++ (c ∷ drop (suc i) s)) × (i < length s)
find-some c [] i h = unfold find in cc
find-some c (b ∷ s) zero h = (tt, ap (λ x. x ∷ s) (find_head c b s h), omega arith)
find-some c (b ∷ s) (suc i) h =
    let (ne, found) = find_tail c b s i h in
    let (before, split, bound) = find-some c s i found in
    ((ne, before), ap (λ t. b ∷ t) split, omega arith)

pub find-append : (c : ℕ) (a b : Bytes) → NotIn c a → find c (a ++ (c ∷ b)) ≡ some (length a)
unfolding find
find-append c [] b h = ground arith
find-append c (x ∷ a) b h = ground (arith, find-append c a b h.1)

pub take-append : (a b : Bytes) → take (length a) (a ++ b) ≡ a
take-append [] b = refl
take-append (x ∷ a) b = ap (λ t. x ∷ t) (take-append a b)

pub drop-append : (a b : Bytes) → drop (length a) (a ++ b) ≡ b
drop-append [] b = refl
drop-append (x ∷ a) b = drop-append a b

pub eq_ignore_ascii_case_refl : (a : Bytes) → eq_ignore_ascii_case a a ≡ true
unfolding eq_ignore_ascii_case
eq_ignore_ascii_case_refl [] = refl
eq_ignore_ascii_case_refl (b ∷ a) = ground (arith, eq_ignore_ascii_case_refl a)

pub drop-append_past : (a : Bytes) (x : ℕ) (b : Bytes) → drop (suc (length a)) (a ++ (x ∷ b)) ≡ b
drop-append_past [] x b = refl
drop-append_past (y ∷ a) x b = drop-append_past a x b
