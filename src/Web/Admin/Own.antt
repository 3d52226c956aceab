-- ===== src/Web/Admin/Own.antt =====
-- application/src/web/admin.rs: what a change of a password can write.
use cro_pduster.Prelude.{
  ◌≡◌, ◌≢◌, refl, false, Option, none, some, [], ◌∷◌, Bytes, eq_bytes_ne, arith,
}
use cro_pduster.Platform.{Heapless, Sha2, Ekv, IsAtomic}
use cro_pduster.Outcome.{ok, err, panic, Action, Result, lift, ◌>>=◌}
use cro_pduster.Transaction.Laws.{stored-transaction}
use cro_pduster.Storage.Keys.{user_pw_key}
use cro_pduster.Auth.{AuthUser}
use cro_pduster.Web.Admin.Checks.{change_splits, check_password_key}
use cro_pduster.Web.Admin.{
  check_password, store_password, ChangePasswordBody, write_error, commit_error, write_all,
  handle_password_change,
}

-- The action leaves what is stored for `j` as it is.
record KeepsKey (E : Ekv) (j : Bytes) {X A : Type 0} (m : Action E.Db X A) : Type 0 where
  unchanged : (d : E.Db) → E.stored (m d).1 j ≡ E.stored d j

module _ (E : Ekv) (j : Bytes) {X A B : Type 0} (f : A → Action E.Db X B) where
  keeps_lift :
      (r : Result X A) → ((a : A) → r ≡ ok a → KeepsKey E j (f a)) → KeepsKey E j (lift r >>= f)
  keeps_lift (ok a) h = record { unchanged = (h a refl).unchanged }
  keeps_lift (err e) h = record { unchanged = λ d. refl }
  keeps_lift panic h = record { unchanged = λ d. refl }

module _ {E : Ekv} (L : IsAtomic E) (H : Heapless) where
  keeps_write : (k v j : Bytes) → k ≢ j → KeepsKey E j (write_all H E ((k, v) ∷ []))
  keeps_write k v j ne = record {
    unchanged = λ d. ground (
      arith,
      stored-transaction L (err write_error) (err commit_error) ((k, v) ∷ []) d j refl refl,
      eq_bytes_ne k j ne,
    );
  }

  own_key : (o : Option Bytes) (k j : Bytes) → o ≡ some k → o ≢ some j → k ≢ j
  own_key (some k') k j e ne = λ same. ne cc
  own_key none k j e ne = cc

  -- Without administrator rights it writes at most the user's own password.
  pub password_change_keeps :
      (S : Sha2) (user : AuthUser) (body : ChangePasswordBody) (j : Bytes) (d : E.Db)
      → user.is_admin ≡ false
      → user_pw_key H user.username ≢ some j
      → E.stored (handle_password_change H S E user body d).1 j ≡ E.stored d j
  unfolding store_password
  password_change_keeps S user body j d plain ne =
      let own : (k : Bytes)
          → (check_password H S E user body d).0 ≡ ok k
          → KeepsKey E j (store_password H S E user body k) =
        λ k e. rw plain (
          keeps_write k (S.sha256 body.new) j (
            own_key (user_pw_key H user.username) k j (check_password_key H S E user body d k e)
              ne)) in
      let rest =
        keeps_lift E j (store_password H S E user body) (check_password H S E user body d).0 own in
      rw (change_splits H S E user body d) (rest.unchanged d)
