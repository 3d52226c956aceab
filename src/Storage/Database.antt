-- ===== src/Storage/Database.antt =====
-- application/src/storage.rs: password hashes, the defaults of a fresh database, and its start.
pub mod Defaults
pub mod Interrupted
mod Examples
use cro_pduster.Prelude.{Bool, [], ◌∷◌, Bytes, codes, if◌then◌else◌}
use cro_pduster.Platform.{Heapless, Sha2, Ekv}
use cro_pduster.Outcome.{Result, ok, panic, Action, unwrap, lift, pure, ◌>>=◌, ◌>>◌}
use cro_pduster.Transaction.{Entries, transaction}
use cro_pduster.Storage.Keys.{key_admin_first_login, user_admin_key, user_ports_key, user_pw_key}
use cro_pduster.Storage.PortNames.{port_entries}

unfoldable pub hash_password : Sha2 → Bytes → Bytes
hash_password S password = S.sha256 password

module _ (H : Heapless) (S : Sha2) (E : Ekv) where
  -- Three transactions; each write and each commit is unwrapped, so a failure is a panic, and the
  -- transaction in hand is dropped.
  pub seed_defaults : {X : Type 0} → Action E.Db X (Unit {0})
  unfolding hash_password
  seed_defaults = do
    transaction E panic panic
        ((codes "admin/first_login", codes "1") ∷ (codes "init", codes "1") ∷ [])
    names ← lift (unwrap (port_entries H 8 0))
    transaction E panic panic names
    admin_key ← lift (unwrap (user_admin_key H (codes "admin")))
    ports_key ← lift (unwrap (user_ports_key H (codes "admin")))
    pw_key ← lift (unwrap (user_pw_key H (codes "admin")))
    transaction E panic panic (
        (admin_key, codes "1")
        ∷ (ports_key, 0xFF ∷ [])
        ∷ (pw_key, hash_password S (codes "admin"))
        ∷ [])

  -- `db.format().await.unwrap()`.
  pub format_or_panic : {X : Type 0} → Action E.Db X (Unit {0})
  format_or_panic d = let (done, d') = E.format d in (if done then ok tt else panic, d')

  -- Mount the database; where that fails, format it and write the defaults.
  pub init_database : {X : Type 0} → Action E.Db X (Unit {0})
  unfolding format_or_panic
  init_database d =
      let (mounted, d') = E.mount d in
      if mounted then (ok tt, d') else (do format_or_panic; seed_defaults) d'
