-- ===== src/Xtask/Uf2/Examples.antt =====
-- The round trip of an image at a concrete input.
use cro_pduster.Prelude.{◌≡◌, some, [], ◌∷◌, ◌++◌, arith}
use cro_pduster.Xtask.Uf2.{active_start, binary_to_uf2, uf2_to_active_binary}
use cro_pduster.Xtask.Uf2.RoundTrip.{zeros, uf2_to_active_binary-binary_to_uf2}

uf2_to_active_binary-binary_to_uf2_example :
    uf2_to_active_binary (binary_to_uf2 (1 ∷ 2 ∷ 3 ∷ []) active_start)
    ≡ some ((1 ∷ 2 ∷ 3 ∷ []) ++ zeros 3)
uf2_to_active_binary-binary_to_uf2_example =
    uf2_to_active_binary-binary_to_uf2 (1 ∷ 2 ∷ 3 ∷ []) active_start (omega arith) (omega arith)
      (omega arith)
