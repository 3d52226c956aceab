-- ===== src/Prelude/Slices.antt =====
-- Byte strings: equality and order as Rust compares slices, and literals of ASCII text.
use Prim.Native.Nat.{ℕ}
use Prim.Native.Char.{code}
use Prim.Native.String.{String}
use mathlib.Core.Path.{◌≡◌, refl}
use mathlib.Core.Logic.{◌↔◌, ◌≢◌}
use mathlib.Core.Bool.{Bool, true, false, ◌&&◌, ◌||◌}
use mathlib.Core.List.{List, [], ◌∷◌, ◌++◌}
use native.Mathlib.Omega.{arith}
use cro_pduster.Prelude.Tests.{ltb, ◌==◌}

-- A slice of `u8`; each element is below 256 where the program keeps it so.
abbrev pub Bytes : Type 0
Bytes = List ℕ

-- The bytes of an ASCII literal, `b"..."`.
abbrev pub codes : String → Bytes
codes String.[] = []
codes (String.◌∷◌ c s) = code c ∷ codes s

-- `==` on slices.
abbrev pub eq_bytes : Bytes → Bytes → Bool
eq_bytes [] [] = true
eq_bytes [] (b ∷ bs) = false
eq_bytes (a ∷ as') [] = false
eq_bytes (a ∷ as') (b ∷ bs) = a == b && eq_bytes as' bs

-- `<` on slices, lexicographic.
abbrev pub lt_bytes : Bytes → Bytes → Bool
lt_bytes as' [] = false
lt_bytes [] (b ∷ bs) = true
lt_bytes (a ∷ as') (b ∷ bs) = ltb a b || (a == b && lt_bytes as' bs)

pub eq_bytes→eq : (a b : Bytes) → eq_bytes a b ≡ true → a ≡ b
eq_bytes→eq [] [] h = refl
eq_bytes→eq [] (y ∷ b) h = cc
eq_bytes→eq (x ∷ a) [] h = cc
eq_bytes→eq (x ∷ a) (y ∷ b) h = ground (arith, eq_bytes→eq a b)

pub eq_bytes_refl : (a : Bytes) → eq_bytes a a ≡ true
eq_bytes_refl [] = refl
eq_bytes_refl (x ∷ a) = ground (arith, eq_bytes_refl a)

pub eq_bytes_iff : (a b : Bytes) → (eq_bytes a b ≡ true) ↔ (a ≡ b)
eq_bytes_iff a b = (eq_bytes→eq a b, λ e. rw (← e) (eq_bytes_refl a))

pub eq_bytes_ne : (a b : Bytes) → a ≢ b → eq_bytes a b ≡ false
eq_bytes_ne a b n = ground (arith, eq_bytes_iff a b)

-- A shared prefix does not count.
pub lt_bytes-append : (p a b : Bytes) → lt_bytes (p ++ a) (p ++ b) ≡ lt_bytes a b
lt_bytes-append [] a b = refl
lt_bytes-append (x ∷ p) a b = ground (arith, lt_bytes-append p a b)
