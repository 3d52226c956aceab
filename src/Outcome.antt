-- ===== src/Outcome.antt =====
-- How a Rust call ends: with `Ok`, with `Err`, or with a panic (`unwrap` of an error, `assert!`).
-- The calls that read and write a state are actions: the state comes back however the call ends.
pub mod Unwrap
pub mod Chain
use cro_pduster.Prelude.{◌≡◌, refl, Bool, true, false, Option, none, some, ◌⊎◌, inl, inr}

pub data Result (E A : Type 0) : Type 0 where
  ok : A → Result E A
  err : E → Result E A
  panic : Result E A

abbrev pub is_ok : {E A : Type 0} → Result E A → Bool
is_ok (ok a) = true
is_ok (err e) = false
is_ok panic = false

abbrev pub Action : Type 0 → Type 0 → Type 0 → Type 0
Action S E A = S → Result E A × S

abbrev pub pure : {S E A : Type 0} → A → Action S E A
pure a s = (ok a, s)

abbrev pub fail : {S E A : Type 0} → E → Action S E A
fail e s = (err e, s)

-- A computation that does not touch the state.
abbrev pub lift : {S E A : Type 0} → Result E A → Action S E A
lift r s = (r, s)

abbrev pub gets : {S E A : Type 0} → (S → A) → Action S E A
gets f s = (ok (f s), s)

abbrev pub continue : {S E A B : Type 0} → Result E A → (A → Action S E B) → Action S E B
continue (ok a) f s = f a s
continue (err e) f s = (err e, s)
continue panic f s = (panic, s)

infixl 5 ◌>>=◌ ◌>>◌
abbrev pub ◌>>=◌ : {S E A B : Type 0} → Action S E A → (A → Action S E B) → Action S E B
◌>>=◌ m f s = continue (m s).0 f (m s).1

abbrev pub ◌>>◌ : {S E B : Type 0} → Action S E (Unit {0}) → Action S E B → Action S E B
m >> k = m >>= λ _. k

-- `.unwrap()` on a call whose `none` is the `Err`.
abbrev pub unwrap : {E A : Type 0} → Option A → Result E A
unwrap none = panic
unwrap (some a) = ok a

-- `.ok_or(e)?` and `.map_err(|_| e)?`.
abbrev pub ok_or : {E A : Type 0} → E → Option A → Result E A
ok_or e none = err e
ok_or e (some a) = ok a

-- `if b { return Err(e) }`.
abbrev pub reject : {E : Type 0} → Bool → E → Result E (Unit {0})
reject true e = err e
reject false e = ok tt

abbrev pub map_err : {E F A : Type 0} → (E → F) → Result E A → Result F A
map_err f (ok a) = ok a
map_err f (err e) = err (f e)
map_err f panic = panic

-- To split on a call and keep the equation.
pub Result-cases :
    {E A : Type 0} (r : Result E A)
    → ((a : A) × (r ≡ ok a)) ⊎ (((e : E) × (r ≡ err e)) ⊎ (r ≡ panic))
Result-cases (ok a) = inl (a, refl)
Result-cases (err e) = inr (inl (e, refl))
Result-cases panic = inr (inr refl)
