-- ===== src/Storage/PortNames.antt =====
-- application/src/storage.rs: the entries that the loop of `seed_defaults` writes, a name for each
-- port. `none` is the panic of a vector that is full.
use cro_pduster.Prelude.{
  ℕ, zero, suc, ◌+◌, ◌%◌, ◌≡◌, refl, Option, some, [], ◌∷◌, Bytes, codes, arith,
}
use cro_pduster.Platform.{Heapless, IsBounded}
use cro_pduster.Outcome.Unwrap.{◌>>=◌}
use cro_pduster.Transaction.{Entries}
use cro_pduster.Storage.Keys.{port_name_key}
use cro_pduster.Storage.Keys.Laws.{name_key, port_name_key_lem}

module _ (H : Heapless) where
  -- One round: the key of port `i`, and the name `Port {i}`.
  unfoldable pub port_entry : ℕ → Option (Bytes × Bytes)
  port_entry i = do
    key ← port_name_key H i
    name ← H.extend_from_slice 16 [] (codes "Port ")
    name ← H.push 16 name ((b'0' + i) % 256)
    some (key, name)

  -- The rounds from `i` on.
  unfoldable pub port_entries : ℕ → ℕ → Option Entries
  unfolding port_entry
  port_entries zero i = some []
  port_entries (suc rounds) i = do
    entry ← port_entry i
    rest ← port_entries rounds (i + 1)
    some (entry ∷ rest)

abbrev pub default_name : ℕ → Bytes
default_name i = 80 ∷ 111 ∷ 114 ∷ 116 ∷ 32 ∷ ((48 + i) % 256) ∷ []

abbrev pub default_names : ℕ → ℕ → Entries
default_names zero i = []
default_names (suc rounds) i = (name_key i, default_name i) ∷ default_names rounds (i + 1)

module _ {H : Heapless} (B : IsBounded H) where
  port_entry_lem : (i : ℕ) → port_entry H i ≡ some (name_key i, default_name i)
  unfolding port_entry
  port_entry_lem i = rw (
    port_name_key_lem B i,
    B.extend_fits 16 [] (codes "Port ") (omega arith),
    B.push_fits 16 (codes "Port ") ((48 + i) % 256) (omega arith),
  )

  pub port_entries_lem : (rounds i : ℕ) → port_entries H rounds i ≡ some (default_names rounds i)
  unfolding port_entries
  port_entries_lem zero i = refl
  port_entries_lem (suc rounds) i = rw (port_entry_lem i, port_entries_lem rounds (i + 1))
