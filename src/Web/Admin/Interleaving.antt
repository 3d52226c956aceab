-- ===== src/Web/Admin/Interleaving.antt =====
-- application/src/web/admin.rs with four web tasks: the handlers that write the database, in any
-- order. A write transaction is one step. A change of a password is two, its check and its write
-- transaction, and the steps of other requests may come between them.
pub mod Writes
pub mod Protected
pub mod Serial
pub mod Deleted
mod Examples
use cro_pduster.Prelude.{ℕ, ◌≡◌, List, ◌∷◌, ◌++◌, Bytes}
use cro_pduster.Platform.{Heapless, Sha2, Ekv}
use cro_pduster.Outcome.{ok}
use cro_pduster.Auth.{AuthUser}
use cro_pduster.Web.Admin.{
  PortNameBody, ChangePasswordBody, CreateUserBody, SetPortsBody, handle_port_name_set,
  check_password, store_password, handle_create_user, handle_set_user_ports, handle_delete_user,
  handle_factory_reset,
}

-- The requests that only an administrator may send.
pub data Call : Type 0 where
  create_user : CreateUserBody → Call
  set_user_ports : Bytes → SetPortsBody → Call
  delete_user : Bytes → Call
  port_name_set : ℕ → PortNameBody → Call
  factory_reset : Call

-- A change whose check has passed, with the key that it will write.
pub record Change : Type 0 where
  pub user : AuthUser
  pub body : ChangePasswordBody
  pub pw_key : Bytes

pub record Server (E : Ekv) : Type 0 where
  pub db : E.Db
  pub waiting : List Change

module _ (H : Heapless) (S : Sha2) (E : Ekv) where
  abbrev pub call_db : Call → E.Db → E.Db
  call_db (create_user body) d = (handle_create_user H S E body d).1
  call_db (set_user_ports name body) d = (handle_set_user_ports H E name body d).1
  call_db (delete_user name) d = (handle_delete_user H E name d).1
  call_db (port_name_set port body) d = (handle_port_name_set H E port body d).1
  call_db factory_reset d = (handle_factory_reset H S E {X = Unit {0}} d).1

  abbrev pub change_db : Change → E.Db → E.Db
  change_db c d = (store_password H S E c.user c.body c.pw_key d).1

  -- `Asks` and `Changes` say which requests come. A change that waits may be lost, when its
  -- connection is closed or the device restarts.
  pub data Step (Asks : Call → Type 0) (Changes : AuthUser → ChangePasswordBody → Type 0)
      : Server E → Server E → Type 0 where
    check :
        (user : AuthUser) (body : ChangePasswordBody) (k : Bytes) (s : Server E)
        → Changes user body
        → check_password H S E user body s.db ≡ (ok k, s.db)
        → Step Asks Changes s
            (record s { waiting = record { user = user; body = body; pw_key = k } ∷ s.waiting })
    store :
        (c : Change) (before after : List Change) (s : Server E)
        → s.waiting ≡ before ++ (c ∷ after)
        → Step Asks Changes s (record { db = change_db c s.db; waiting = before ++ after })
    lose :
        (c : Change) (before after : List Change) (s : Server E)
        → s.waiting ≡ before ++ (c ∷ after)
        → Step Asks Changes s (record s { waiting = before ++ after })
    call :
        (c : Call) (s : Server E) → Asks c → Step Asks Changes s (record s { db = call_db c s.db })

  pub data Reach (Asks : Call → Type 0) (Changes : AuthUser → ChangePasswordBody → Type 0)
      (s : Server E) : Server E → Type 0 where
    here : Reach Asks Changes s s
    next :
        {t u : Server E} → Reach Asks Changes s t → Step Asks Changes t u → Reach Asks Changes s u
