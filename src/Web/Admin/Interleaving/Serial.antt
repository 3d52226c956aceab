-- ===== src/Web/Admin/Interleaving/Serial.antt =====
-- application/src/web/admin.rs: a change of a password in two steps, and the same in one.
use cro_pduster.Prelude.{
  ◌≡◌, ◌≢◌, ◌≤◌, ap, sym, ◌∙◌, refl, some, of_some, Bytes, codes, length, if◌then◌else◌,
  eq_bytes_refl, arith,
}
use cro_pduster.Platform.{Heapless, IsBounded, Sha2, IsDigest, Ekv, IsAtomic, IsReliable}
use cro_pduster.Outcome.{ok, continue}
use cro_pduster.Auth.{AuthUser}
use cro_pduster.Auth.Verify.{into_buffer_full}
use cro_pduster.Web.Admin.{
  ChangePasswordBody, api_ok, check_password, store_password, handle_password_change,
}
use cro_pduster.Storage.Keys.{key_admin_first_login}
use cro_pduster.Storage.Keys.Laws.{pw_key, user_pw_key_lem}
use cro_pduster.Web.Admin.Password.{password_change_lem}
use cro_pduster.Web.Admin.Checks.{check_password_passes, change_splits}

module _ (H : Heapless) {S : Sha2} {E : Ekv} where
  module _ (D : IsDigest S) (L : IsAtomic E) (R : IsReliable E) where
    -- The halves of a change, and the whole handler.
    store-change :
        (user : AuthUser) (body : ChangePasswordBody) (k : Bytes) (d d' : E.Db)
        → check_password H S E user body d ≡ (ok k, d)
        → E.stored d' k ≡ E.stored d k
        → store_password H S E user body k d' ≡ handle_password_change H S E user body d'
    unfolding check_password
    store-change user body k d d' passed same =
        let old = S.sha256 body.old in
        let (built, read) = check_password_passes H S E user body d k passed in
        let full = D.length-sha256 body.old in
        let there =
          R.read_ok d' k old 32 (same ∙ (L.read-stored d k old 32 read).0) (omega (arith, full)) in
        let again : (check_password H S E user body d').0 ≡ ok k =
          ground (arith, built, there, full, into_buffer_full old 32 full, eq_bytes_refl old) in
        sym (
          change_splits H S E user body d'
          ∙ ap (λ r. continue r (store_password H S E user body) d') again)

    -- On a reliable flash: a change whose check has passed, and whose user's hash is the same when it
    -- is written, whatever else has been stored between, does what one change at that moment does: it
    -- and the whole handler both succeed and leave the same database, in which the hash of the new
    -- password is stored for the user, an administrator's change has cleared the first-login flag,
    -- and every other key has the value that it had at that moment, not at the check. (The username
    -- has at most 32 bytes.)
    pub change_serializes :
        IsBounded H
        → (user : AuthUser) (body : ChangePasswordBody) (k : Bytes) (d d' : E.Db)
        → length user.username ≤ 32
        → check_password H S E user body d ≡ (ok k, d)
        → E.stored d' k ≡ E.stored d k
        → (e : E.Db) × (store_password H S E user body k d' ≡ (ok api_ok, e))
          × (handle_password_change H S E user body d' ≡ (ok api_ok, e))
          × (E.stored e (pw_key user.username) ≡ some (S.sha256 body.new))
          × (E.stored e key_admin_first_login
              ≡ (if user.is_admin then some (codes "0") else E.stored d' key_admin_first_login))
          × ((j : Bytes)
              → pw_key user.username ≢ j
              → key_admin_first_login ≢ j
              → E.stored e j ≡ E.stored d' j)
    change_serializes B user body k d d' hu passed same =
        let old = S.sha256 body.old in
        let (built, read) = check_password_passes H S E user body d k passed in
        let key : k ≡ pw_key user.username =
          of_some (sym built ∙ user_pw_key_lem B user.username (omega arith)) in
        let there : E.stored d' (pw_key user.username) ≡ some old =
          rw (← key) (same ∙ (L.read-stored d k old 32 read).0) in
        let (e, changed, hash, flag, others) =
          (password_change_lem B D L R user body old d' hu (D.length-sha256 body.old) there).1
            refl in
        (e, store-change user body k d d' passed same ∙ changed, changed, hash, flag, others)
