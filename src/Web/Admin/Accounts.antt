-- ===== src/Web/Admin/Accounts.antt =====
-- What the handlers of application/src/web/admin.rs promise: accounts by username, and what each
-- request makes of them. Nothing is said of keys, entries and transactions.
pub mod Entries
pub mod Calls
pub mod Changes
pub mod Refinement
mod Examples
use cro_pduster.Prelude.{
  ℕ, ◌≤◌, ◌≡◌, ◌≢◌, Bool, true, false, Option, none, some, List, [], ◌∷◌, Bytes, codes, length,
  replicate, eq_bytes, if◌then◌else◌,
}
use cro_pduster.Platform.{Heapless, Sha2, Ekv}
use cro_pduster.Outcome.{Result, ok, err}
use cro_pduster.Storage.Keys.Laws.{admin_key, ports_key, pw_key}
use cro_pduster.Auth.{AuthUser, AuthError, invalid_credentials}
use cro_pduster.Web.Admin.{ChangePasswordBody, handle_password_change}
use cro_pduster.Web.Admin.Interleaving.{
  Call, create_user, set_user_ports, delete_user, port_name_set, factory_reset, call_db,
}

pub record Account : Type 0 where
  pub hash : Bytes
  pub is_admin : Bool
  pub ports : ℕ

-- An administrator's request, or a user's change of the own password.
pub data Request : Type 0 where
  admin_call : Call → Request
  password_change : AuthUser → ChangePasswordBody → Request

module _ (S : Sha2) where
  abbrev pub with_ports : ℕ → Option Account → Option Account
  with_ports ports none = none
  with_ports ports (some a) = some (record a { ports = ports })

  abbrev pub with_password : ChangePasswordBody → Option Account → Option Account
  with_password body none = none
  with_password body (some a) =
      some
        (if eq_bytes a.hash (S.sha256 body.old) then record a { hash = S.sha256 body.new } else a)

  -- What a request makes of the account of `u`.
  abbrev pub account_after : Request → Bytes → Option Account → Option Account
  account_after (admin_call (create_user body)) u o =
      if eq_bytes body.username u
      then some
          (record { hash = S.sha256 body.password; is_admin = body.admin; ports = body.ports })
      else o
  account_after (admin_call (set_user_ports name body)) u o =
      if eq_bytes name u then with_ports body.ports o else o
  account_after (admin_call (delete_user name)) u o = if eq_bytes name u then none else o
  account_after (admin_call (port_name_set port body)) u o = o
  account_after (admin_call factory_reset) u o =
      if eq_bytes (codes "admin") u
      then some (record { hash = S.sha256 (codes "admin"); is_admin = true; ports = 255 })
      else none
  account_after (password_change user body) u o =
      if eq_bytes user.username u then with_password body o else o

  abbrev pub accounts_after : List Request → (Bytes → Option Account) → Bytes → Option Account
  accounts_after [] A u = A u
  accounts_after (r ∷ rs) A u = accounts_after rs (λ v. account_after r v (A v)) u

  abbrev pub login : Option Account → Bytes → Bytes → Result AuthError AuthUser
  login none u password = err invalid_credentials
  login (some a) u password =
      if eq_bytes a.hash (S.sha256 password)
      then ok (record { username = u; is_admin = a.is_admin; allowed_ports = a.ports })
      else err invalid_credentials

  -- The bodies' types bound the names. No old password has the hash of a deleted account.
  abbrev pub IsProper : Request → Type 0
  IsProper (admin_call (create_user body)) = length body.username ≤ 32
  IsProper (admin_call (set_user_ports name body)) = length name ≤ 32
  IsProper (admin_call (delete_user name)) = length name ≤ 32
  IsProper (admin_call (port_name_set port body)) = Unit
  IsProper (admin_call factory_reset) = Unit
  IsProper (password_change user body) =
      (length user.username ≤ 32) × (S.sha256 body.old ≢ replicate 32 0)

  abbrev pub AreProper : List Request → Type 0
  AreProper [] = Unit
  AreProper (r ∷ rs) = IsProper r × AreProper rs

module _ (H : Heapless) (S : Sha2) (E : Ekv) where
  abbrev pub request_db : Request → E.Db → E.Db
  request_db (admin_call c) d = call_db H S E c d
  request_db (password_change user body) d = (handle_password_change H S E user body d).1

  abbrev pub requests_db : List Request → E.Db → E.Db
  requests_db [] d = d
  requests_db (r ∷ rs) d = requests_db rs (request_db r d)

-- The entries that stand for an account: hash, flag and ports. No account is no hash, or what a
-- deletion leaves.
pub data Holds (pw flag ports : Option Bytes) : Option Account → Type 0 where
  absent : pw ≡ none → Holds pw flag ports none
  deleted :
      (f p : Bytes)
      → pw ≡ some (replicate 32 0)
      → flag ≡ some f
      → length f ≤ 1
      → ports ≡ some p
      → length p ≤ 1
      → Holds pw flag ports none
  present :
      (a : Account)
      → pw ≡ some a.hash
      → length a.hash ≡ 32
      → flag ≡ some (if a.is_admin then codes "1" else codes "0")
      → ports ≡ some (a.ports ∷ [])
      → Holds pw flag ports (some a)

abbrev pub Represents : (E : Ekv) → E.Db → (Bytes → Option Account) → Type 0
Represents E d A =
    (u : Bytes)
    → length u ≤ 32
    → Holds (E.stored d (pw_key u)) (E.stored d (admin_key u)) (E.stored d (ports_key u)) (A u)
