-- ===== src/Web/Admin/Atomic.antt =====
-- A handler of the database that fails, or panics, has changed nothing that is stored.
use cro_pduster.Prelude.{ℕ, ◌≡◌, refl, ◌∙◌, Bool, true, false, [], ◌∷◌, Bytes, arith, if◌then◌else◌}
use cro_pduster.Platform.{Heapless, Sha2, Ekv, IsAtomic}
use cro_pduster.Outcome.{ok, err, is_ok, panic, ◌>>=◌, ◌>>◌, pure, Action, Result, lift, gets}
use cro_pduster.Transaction.{Entries}
use cro_pduster.Transaction.Laws.{stored-transaction}
use cro_pduster.Auth.{AuthUser}
use cro_pduster.Web.Admin.Checks.{change_splits}
use cro_pduster.Web.Admin.{
  check_password, store_password, api_ok, PortNameBody, ChangePasswordBody, CreateUserBody,
  SetPortsBody, write_error, commit_error, write_all, write_each_ignoring, write_ignoring,
  handle_port_name_set, handle_password_change, handle_create_user, handle_set_user_ports,
  handle_delete_user,
}

-- Whatever is stored is as before, unless the action ends well.
pub record KeepsOnFailure (E : Ekv) {X A : Type 0} (m : Action E.Db X A) : Type 0 where
  pub unchanged : (d : E.Db) (j : Bytes) → is_ok (m d).0 ≡ false → E.stored (m d).1 j ≡ E.stored d j

module _ (E : Ekv) {X A B : Type 0} (f : A → Action E.Db X B) where
  bind_lift :
      (r : Result X A) → ((a : A) → KeepsOnFailure E (f a)) → KeepsOnFailure E (lift r >>= f)
  bind_lift (ok a) h = h a
  bind_lift (err e) h = record { unchanged = λ d j e. refl }
  bind_lift panic h = record { unchanged = λ d j e. refl }

  bind_gets : (g : E.Db → A) → ((a : A) → KeepsOnFailure E (f a)) → KeepsOnFailure E (gets g >>= f)
  bind_gets g h = record { unchanged = λ d j e. (h (g d)).unchanged d j e }

choose :
    (E : Ekv) {X A : Type 0} (b : Bool) (m n : Action E.Db X A)
    → KeepsOnFailure E m
    → KeepsOnFailure E n
    → KeepsOnFailure E (if b then m else n)
choose E true m n hm hn = hm
choose E false m n hm hn = hn

module _ {E : Ekv} (L : IsAtomic E) (H : Heapless) where
  write_all_keeps : (entries : Entries) → KeepsOnFailure E (write_all H E entries)
  write_all_keeps entries = record {
    unchanged = λ d j h.
        ground
          (arith, stored-transaction L (err write_error) (err commit_error) entries d j refl refl);
  }

  original-write_each_ignoring :
      (entries : Entries) (w : E.Wtx) (j : Bytes)
      → E.original (write_each_ignoring H E entries w) j ≡ E.original w j
  unfolding write_each_ignoring
  original-write_each_ignoring [] w j = refl
  original-write_each_ignoring ((k, v) ∷ entries) w j =
      original-write_each_ignoring entries (E.write w k v).1 j ∙ L.original-write w k v j

  write_ignoring_keeps :
      (entries : Entries) → KeepsOnFailure E (write_ignoring H E entries >> pure api_ok)
  unfolding write_ignoring
  write_ignoring_keeps entries = record {
    unchanged = λ d j h. ground (
      arith,
      L.stored-commit (write_each_ignoring H E entries (E.begin d)) j,
      original-write_each_ignoring entries (E.begin d) j,
      L.original-begin d j,
    );
  }

  pub password_change-KeepsOnFailure :
      (S : Sha2) (user : AuthUser) (body : ChangePasswordBody)
      → KeepsOnFailure E (handle_password_change H S E user body)
  unfolding store_password
  password_change-KeepsOnFailure S user body = record {
    unchanged = λ d j.
        let rest =
          bind_lift E (store_password H S E user body) (check_password H S E user body d).0
            (λ k. write_all_keeps _) in
        rw (change_splits H S E user body d) (rest.unchanged d j);
  }

  ruleset keep_rules = (bind_lift, bind_gets, choose, write_all_keeps, write_ignoring_keeps)

  pub port_name_set-KeepsOnFailure :
      (port : ℕ) (body : PortNameBody) → KeepsOnFailure E (handle_port_name_set H E port body)
  unfolding handle_port_name_set
  port_name_set-KeepsOnFailure port body = search keep_rules

  pub create_user-KeepsOnFailure :
      (S : Sha2) (body : CreateUserBody) → KeepsOnFailure E (handle_create_user H S E body)
  unfolding handle_create_user
  create_user-KeepsOnFailure S body = search keep_rules

  pub user_ports-KeepsOnFailure :
      (username : Bytes) (body : SetPortsBody)
      → KeepsOnFailure E (handle_set_user_ports H E username body)
  unfolding handle_set_user_ports
  user_ports-KeepsOnFailure username body = search keep_rules

  pub delete_user-KeepsOnFailure :
      (username : Bytes) → KeepsOnFailure E (handle_delete_user H E username)
  unfolding handle_delete_user
  delete_user-KeepsOnFailure username = search keep_rules

  -- Whatever the flash does, each of the five handlers that write is all or nothing: when it
  -- answers with an error, or panics, every key has the value that it had before.
  pub handlers_keep_on_failure :
      (S : Sha2) (port : ℕ) (name : PortNameBody) (user : AuthUser) (passwords : ChangePasswordBody)
      (account : CreateUserBody) (username : Bytes) (ports : SetPortsBody)
      → KeepsOnFailure E (handle_port_name_set H E port name)
        × KeepsOnFailure E (handle_password_change H S E user passwords)
        × KeepsOnFailure E (handle_create_user H S E account)
        × KeepsOnFailure E (handle_set_user_ports H E username ports)
        × KeepsOnFailure E (handle_delete_user H E username)
  handlers_keep_on_failure S port name user passwords account username ports = (
    port_name_set-KeepsOnFailure port name,
    password_change-KeepsOnFailure S user passwords,
    create_user-KeepsOnFailure S account,
    user_ports-KeepsOnFailure username ports,
    delete_user-KeepsOnFailure username,
  )
