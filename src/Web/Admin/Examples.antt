-- ===== src/Web/Admin/Examples.antt =====
-- The theorems about the handlers of the database at concrete inputs.
use cro_pduster.Prelude.{
  ◌≤◌, ◌≡◌, ◌≢◌, refl, true, false, some, none, [], ◌∷◌, Bytes, codes, length, eq_bytes, ◌==◌,
  arith, if◌then◌else◌,
}
use cro_pduster.Platform.Memory.{
  heapless, heapless-IsBounded, sha2, sha2-IsDigest, ekv, ekv-IsAtomic, ekv-IsReliable,
}
use cro_pduster.Outcome.{ok, err}
use cro_pduster.Text.{is_utf8}
use cro_pduster.Transaction.Laws.{overlay}
use cro_pduster.Storage.Keys.{key_admin_first_login}
use cro_pduster.Storage.Keys.Laws.{pw_key}
use cro_pduster.Storage.UserEntries.{user_entries}
use cro_pduster.Storage.Database.Defaults.{default_entries}
use cro_pduster.Auth.{AuthUser, invalid_credentials, verify}
use cro_pduster.Web.Admin.{
  CreateUserBody, ChangePasswordBody, PortNameBody, api_ok, wrong_credentials, handle_create_user,
  handle_delete_user, handle_password_change, handle_port_name_set, handle_port_name_get,
  handle_set_user_ports, handle_factory_reset,
}
use cro_pduster.Web.Admin.Password.{password_change_lem}
use cro_pduster.Web.Admin.Names.{port_name_get-set}
use cro_pduster.Web.Admin.Reset.{factory_reset_login}
use cro_pduster.Web.Admin.Atomic.{KeepsOnFailure, handlers_keep_on_failure}

abbrev eve : CreateUserBody
eve = record { username = codes "eve"; password = codes "pw"; ports = 3; admin = false }

abbrev bob : Bytes
bob = codes "bob"

abbrev with_bob : ekv.Db
with_bob = user_entries bob (codes "1") (5 ∷ []) (sha2.sha256 (codes "secret"))

abbrev bob_user : AuthUser
bob_user = record { username = bob; is_admin = true; allowed_ports = 5 }

abbrev change : ChangePasswordBody
change = record { old = codes "secret"; new = codes "better" }

password_change_lem_example :
    (sha2.sha256 (codes "secret") ≢ sha2.sha256 change.old
      → handle_password_change heapless sha2 ekv bob_user change with_bob
        ≡ (err wrong_credentials, with_bob))
    × (sha2.sha256 (codes "secret") ≡ sha2.sha256 change.old
        → (d' : ekv.Db) × (handle_password_change heapless sha2 ekv bob_user change with_bob
            ≡ (ok api_ok, d'))
          × (ekv.stored d' (pw_key bob_user.username) ≡ some (sha2.sha256 change.new))
          × (ekv.stored d' key_admin_first_login ≡ (
              if bob_user.is_admin
              then some (codes "0")
              else ekv.stored with_bob key_admin_first_login))
          × ((j : Bytes)
              → pw_key bob_user.username ≢ j
              → key_admin_first_login ≢ j
              → ekv.stored d' j ≡ ekv.stored with_bob j))
password_change_lem_example =
    password_change_lem heapless-IsBounded sha2-IsDigest ekv-IsAtomic ekv-IsReliable bob_user change
      (sha2.sha256 (codes "secret")) with_bob (omega arith) refl refl

abbrev lamp : PortNameBody
lamp = record { name = codes "Lamp" }

port_name_get-set_example :
    (d' : ekv.Db) × (handle_port_name_set heapless ekv 2 lamp with_bob ≡ (ok api_ok, d'))
    × (handle_port_name_get heapless ekv {X = Unit} 5 d' ≡ (
        if 2 == 5
        then ok (record { name = lamp.name })
        else handle_port_name_get heapless ekv 5 with_bob))
unfolding is_utf8
port_name_get-set_example =
    port_name_get-set heapless-IsBounded ekv-IsAtomic ekv-IsReliable {X = Unit} 2 5 lamp with_bob
      (omega arith) (omega arith) (omega arith) refl

factory_reset_login_example :
    (d' : ekv.Db) × (handle_factory_reset heapless sha2 ekv {X = Unit} with_bob ≡ (ok tt, d'))
    × ((j : Bytes) → ekv.stored d' j ≡ overlay (default_entries sha2) (λ _. none) j)
    × ((password : Bytes)
        → verify heapless sha2 ekv d' (codes "admin") password ≡ (
            if eq_bytes (sha2.sha256 (codes "admin")) (sha2.sha256 password)
            then ok (record { username = codes "admin"; is_admin = true; allowed_ports = 255 })
            else err invalid_credentials))
    × ((u password : Bytes)
        → length u ≤ 56
        → u ≢ codes "admin"
        → verify heapless sha2 ekv d' u password ≡ err invalid_credentials)
factory_reset_login_example =
    factory_reset_login heapless-IsBounded sha2-IsDigest ekv-IsAtomic ekv-IsReliable {X = Unit}
      with_bob

handlers_keep_on_failure_example :
    KeepsOnFailure ekv (handle_port_name_set heapless ekv 9 lamp)
    × KeepsOnFailure ekv (handle_password_change heapless sha2 ekv bob_user change)
    × KeepsOnFailure ekv (handle_create_user heapless sha2 ekv eve)
    × KeepsOnFailure ekv (handle_set_user_ports heapless ekv bob (record { ports = 1 }))
    × KeepsOnFailure ekv (handle_delete_user heapless ekv bob)
handlers_keep_on_failure_example =
    handlers_keep_on_failure ekv-IsAtomic heapless sha2 9 lamp bob_user change eve bob
      (record { ports = 1 })
