-- ===== src/Outcome/Unwrap.antt =====
-- Chains of calls that are unwrapped one by one: `none` is the panic of the first that fails.
use cro_pduster.Prelude.{Option, none, some}

infixl 5 ◌>>=◌
abbrev pub ◌>>=◌ : {A B : Type 0} → Option A → (A → Option B) → Option B
none >>= f = none
some a >>= f = f a
