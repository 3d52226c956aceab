-- ===== src/Storage/UserEntries.antt =====
-- The three entries that the database holds for a user (application/src/storage.rs), written in one
-- transaction: it may be committed, and each entry is found afterwards.
use cro_pduster.Prelude.{
  ◌+◌, ◌≤◌, ◌≡◌, ◌≢◌, Option, some, none, [], ◌∷◌, Bytes, codes, length, length-append,
  eq_bytes_refl, eq_bytes_ne, arith,
}
use cro_pduster.Transaction.{Entries}
use cro_pduster.Transaction.Laws.{overlay, IsWritable}
use cro_pduster.Storage.Keys.Laws.{
  user_key, admin_key, ports_key, pw_key, user_keys_ascend, pw-ne-ports, pw-ne-admin,
  ports-ne-admin,
}

abbrev pub user_entries : Bytes → Bytes → Bytes → Bytes → Entries
user_entries u flag ports pw = (admin_key u, flag) ∷ (ports_key u, ports) ∷ (pw_key u, pw) ∷ []

pub length-user_key : (u field : Bytes) → length (user_key u field) ≡ length u + length field + 2
length-user_key u field = omega (arith, length-append u field)

module _ (u flag ports pw : Bytes) where
  pub user_entries-IsWritable :
      length u ≤ 56
      → length flag ≤ 256
      → length ports ≤ 256
      → length pw ≤ 256
      → IsWritable none (user_entries u flag ports pw)
  user_entries-IsWritable hu hf hp hw =
      let (first, second) = user_keys_ascend u in
      (
        tt,
        omega (arith, length-user_key u (codes "/admin")),
        hf,
        (
          first,
          omega (arith, length-user_key u (codes "/ports")),
          hp,
          (second, omega (arith, length-user_key u (codes "/pw")), hw, tt),
        ),
      )

  module _ (f : Bytes → Option Bytes) where
    pub overlay-pw : overlay (user_entries u flag ports pw) f (pw_key u) ≡ some pw
    overlay-pw = rw (eq_bytes_refl (pw_key u))

    pub overlay-ports : overlay (user_entries u flag ports pw) f (ports_key u) ≡ some ports
    overlay-ports = rw (eq_bytes_ne _ _ (pw-ne-ports u u), eq_bytes_refl (ports_key u))

    pub overlay-admin : overlay (user_entries u flag ports pw) f (admin_key u) ≡ some flag
    overlay-admin = rw (
      eq_bytes_ne _ _ (pw-ne-admin u u),
      eq_bytes_ne _ _ (ports-ne-admin u u),
      eq_bytes_refl (admin_key u),
    )

    pub overlay_other :
        (j : Bytes)
        → admin_key u ≢ j
        → ports_key u ≢ j
        → pw_key u ≢ j
        → overlay (user_entries u flag ports pw) f j ≡ f j
    overlay_other j na np nw = rw (eq_bytes_ne _ _ nw, eq_bytes_ne _ _ np, eq_bytes_ne _ _ na)
