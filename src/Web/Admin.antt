-- ===== src/Web/Admin.antt =====
-- application/src/web/admin.rs: the handlers that read and write the database. A handler that takes
-- an `AdminUser` runs only behind that extractor (see Web.Routes); the value itself is not used.
pub mod Users
pub mod Deletion
pub mod Atomic
pub mod Password
pub mod Names
pub mod Reset
pub mod Own
pub mod Checks
pub mod Interleaving
pub mod Accounts
mod Examples
use cro_pduster.Prelude.{
  ℕ, Bool, true, false, not, Option, none, some, [], ◌∷◌, ◌++◌, Bytes, String, codes, length,
  replicate, leb, ◌==◌, eq_bytes, if◌then◌else◌,
}
use cro_pduster.Platform.{Heapless, Sha2, Ekv}
use cro_pduster.Outcome.{
  Result, ok, err, panic, Action, pure, fail, gets, lift, unwrap, ok_or, reject, continue, ◌>>=◌,
  ◌>>◌,
}
use cro_pduster.Transaction.{Entries, finish, transaction}
use cro_pduster.Text.{is_utf8}
use cro_pduster.Storage.Keys.{
  key_admin_first_login, port_name_key, user_admin_key, user_ports_key, user_pw_key,
}
use cro_pduster.Storage.Database.{hash_password, seed_defaults}
use cro_pduster.Auth.{
  AuthUser, into_buffer, StatusCode, bad_request, unauthorized, internal_server_error,
}

pub record OkResponse : Type 0 where
  pub success : Bool

abbrev pub ApiError : Type 0
ApiError = StatusCode × Bytes

abbrev pub api_ok : OkResponse
api_ok = record { success = true }

-- The two errors of a transaction.
abbrev pub write_error : ApiError
write_error = (internal_server_error, codes "Write error")

abbrev pub commit_error : ApiError
commit_error = (internal_server_error, codes "Commit error")

abbrev pub storage_failure : ApiError
storage_failure = (internal_server_error, codes "Storage error")

abbrev pub wrong_credentials : ApiError
wrong_credentials = (unauthorized, codes "Invalid credentials")

pub record PortNameBody : Type 0 where
  pub name : Bytes

pub record PortNameResponse : Type 0 where
  pub name : Bytes

pub record ChangePasswordBody : Type 0 where
  pub old : Bytes
  pub new : Bytes

pub record CreateUserBody : Type 0 where
  pub username : Bytes
  pub password : Bytes
  pub ports : ℕ
  pub admin : Bool

pub record SetPortsBody : Type 0 where
  pub ports : ℕ

abbrev or_default : Option Bytes → Bytes
or_default none = []
or_default (some v) = v

module _ (H : Heapless) (E : Ekv) where
  -- The writes in order with `?` behind each, then the commit with `?`, then `api_ok()`.
  abbrev write_all : Entries → Action E.Db ApiError OkResponse
  write_all entries = do transaction E (err write_error) (err commit_error) entries; pure api_ok

  pub handle_port_name_set : ℕ → PortNameBody → Action E.Db ApiError OkResponse
  handle_port_name_set port body = do
    lift (reject (leb 8 port) (bad_request, codes "Invalid port"))
    key ← lift (unwrap (port_name_key H port))
    write_all ((key, body.name) ∷ [])

  -- The name that is read, if it is text.
  abbrev pub name_of : Option Bytes → Bytes
  name_of none = []
  name_of (some v) =
      let text = or_default (H.extend_from_slice 16 [] v) in if is_utf8 text then text else []

  pub handle_port_name_get : {X : Type 0} → ℕ → E.Db → Result X PortNameResponse
  handle_port_name_get port d = elim (port_name_key H port) [
    | none ↦ panic
    | some key ↦ ok (record { name = name_of (E.read d key 16) })
  ]

  pub handle_set_user_ports : Bytes → SetPortsBody → Action E.Db ApiError OkResponse
  handle_set_user_ports username body = do
    ports_key ← lift (unwrap (user_ports_key H username))
    write_all ((ports_key, body.ports ∷ []) ∷ [])

  -- A transaction whose write errors are ignored.
  write_each_ignoring : Entries → E.Wtx → E.Wtx
  write_each_ignoring [] w = w
  write_each_ignoring ((k, v) ∷ entries) w = write_each_ignoring entries (E.write w k v).1

  write_ignoring : Entries → Action E.Db ApiError (Unit {0})
  unfolding write_each_ignoring
  write_ignoring entries d = finish E (err commit_error) (write_each_ignoring entries (E.begin d))

  -- The entries of a deleted user: no admin, no ports, and a hash of zeros.
  pub handle_delete_user : Bytes → Action E.Db ApiError OkResponse
  unfolding write_ignoring
  handle_delete_user username = do
    pw_key ← lift (unwrap (user_pw_key H username))
    ports_key ← lift (unwrap (user_ports_key H username))
    admin_key ← lift (unwrap (user_admin_key H username))
    write_ignoring ((admin_key, codes "0") ∷ (ports_key, 0 ∷ []) ∷ (pw_key, replicate 32 0) ∷ [])
    pure api_ok

module _ (H : Heapless) (S : Sha2) (E : Ekv) where
  -- The first half of a change: the old password is checked in a read transaction of its own. The
  -- result is the key that is then written.
  pub check_password : AuthUser → ChangePasswordBody → Action E.Db ApiError Bytes
  unfolding hash_password
  check_password user body = do
    pw_key ← lift (unwrap (user_pw_key H user.username))
    found ← gets (λ d. E.read d pw_key 32)
    stored ← lift (ok_or storage_failure found)
    lift (reject (not (length stored == 32)) wrong_credentials)
    lift (
        reject (not (eq_bytes (into_buffer 32 stored) (hash_password S body.old)))
          wrong_credentials)
    pure pw_key

  -- The second half, from `db.write_transaction().await` on, where other requests may come between.
  pub store_password : AuthUser → ChangePasswordBody → Bytes → Action E.Db ApiError OkResponse
  unfolding hash_password
  store_password user body pw_key = write_all H E (
      (if user.is_admin then (key_admin_first_login, codes "0") ∷ [] else [])
      ++ ((pw_key, hash_password S body.new) ∷ []))

  pub handle_password_change : AuthUser → ChangePasswordBody → Action E.Db ApiError OkResponse
  unfolding check_password store_password
  handle_password_change user body = do
    pw_key ← check_password user body
    store_password user body pw_key

  pub handle_create_user : CreateUserBody → Action E.Db ApiError OkResponse
  unfolding hash_password
  handle_create_user body = do
    pw_key ← lift (unwrap (user_pw_key H body.username))
    admin_key ← lift (unwrap (user_admin_key H body.username))
    ports_key ← lift (unwrap (user_ports_key H body.username))
    write_all H E (
        (admin_key, if body.admin then codes "1" else codes "0")
        ∷ (ports_key, body.ports ∷ [])
        ∷ (pw_key, hash_password S body.password)
        ∷ [])

  -- After it the chip is reset, and the handler never returns. The result of `format` is dropped.
  pub handle_factory_reset : {X : Type 0} → Action E.Db X (Unit {0})
  handle_factory_reset d = seed_defaults H S E (E.format d).1
