-- ===== src/Web/Gpio/Masks.antt =====
-- The port mask of a user, as the handlers test it.
use Prim.Native.Nat.{bit_and}
use cro_pduster.Prelude.{
  ℕ, zero, suc, ◌/◌, ◌%◌, ◌^◌, ◌<◌, ◌≡◌, refl, Bool, true, false, not, ◌&&◌, ◌==◌, arith,
}
use cro_pduster.Web.Gpio.{is_allowed}

all_below : ℕ → (ℕ → Bool) → Bool
all_below zero p = true
all_below (suc n) p = p n && all_below n p

all_below_lem : (n : ℕ) (p : ℕ → Bool) (x : ℕ) → all_below n p ≡ true → x < n → p x ≡ true
unfolding all_below
all_below_lem zero p x h lt = absurd (omega arith)
all_below_lem (suc n) p x h lt = ground (arith, all_below_lem n p x)

abbrev same : Bool → Bool → Bool
same true b = b
same false b = not b

same→eq : (a b : Bool) → same a b ≡ true → a ≡ b
same→eq true b h = ground arith
same→eq false b h = ground arith

table :
    all_below 8
      (λ p. all_below 256 (λ m. same (not (bit_and m (2 ^ (p % 8)) == 0)) (m / 2 ^ p % 2 == 1)))
    ≡ true
unfolding all_below
table = refl

-- For one of the eight ports the test reads the port's bit of the mask.
pub is_allowed_bit :
    (mask pin : ℕ) → mask < 256 → pin < 8 → is_allowed mask pin ≡ (mask / 2 ^ pin % 2 == 1)
unfolding is_allowed
is_allowed_bit mask pin hm hp =
    same→eq _ _ (all_below_lem 256 _ mask (all_below_lem 8 _ pin table hp) hm)

-- For a port that does not exist it reads the bit of another port.
pub is_allowed_wraps : (mask pin : ℕ) → is_allowed mask pin ≡ is_allowed mask (pin % 8)
unfolding is_allowed
is_allowed_wraps mask pin = ground arith
