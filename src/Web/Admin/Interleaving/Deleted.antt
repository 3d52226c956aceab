-- ===== src/Web/Admin/Interleaving/Deleted.antt =====
-- application/src/web/admin.rs: a user is deleted between the halves of a change of its password.
use cro_pduster.Prelude.{
  ◌≤◌, ◌≡◌, ◌≢◌, refl, ap, ◌∙◌, sym, of_some, false, some, [], ◌∷◌, Bytes, codes, replicate, length,
  eq_bytes_refl, arith,
}
use cro_pduster.Platform.{Heapless, IsBounded, Sha2, IsDigest, Ekv, IsAtomic, IsReliable}
use cro_pduster.Outcome.{ok, err}
use cro_pduster.Transaction.Laws.{overlay, transaction_stores}
use cro_pduster.Storage.Keys.{key_admin_first_login}
use cro_pduster.Storage.Keys.Laws.{
  admin_key, ports_key, pw_key, user_pw_key_lem, pw-ne-admin, pw-ne-ports, user-ne-first_login,
}
use cro_pduster.Storage.UserEntries.{user_entries, overlay-ports, overlay-admin}
use cro_pduster.Auth.{AuthUser, verify}
use cro_pduster.Auth.Verify.{verify_exact}
use cro_pduster.Web.Admin.{
  ApiError, ChangePasswordBody, api_ok, write_error, commit_error, check_password, store_password,
}
use cro_pduster.Web.Admin.Checks.{check_password_passes}
use cro_pduster.Web.Admin.Password.{changes, changes-IsWritable, changes_pw, changes_other}
use cro_pduster.Web.Admin.Deletion.{delete_user_stores}
use cro_pduster.Web.Admin.Interleaving.{
  call_db, change_db, Change, delete_user, Server, check, store, call, Reach, here, next,
}

module _ {H : Heapless} {S : Sha2} {E : Ekv} where
  module _ (B : IsBounded H) (D : IsDigest S) (L : IsAtomic E) (R : IsReliable E) where
    store_password_stores :
        (user : AuthUser) (body : ChangePasswordBody) (d : E.Db)
        → length user.username ≤ 32
        → (d' : E.Db) × (store_password H S E user body (pw_key user.username) d ≡ (ok api_ok, d'))
          × (E.stored d' (pw_key user.username) ≡ some (S.sha256 body.new))
          × ((j : Bytes)
              → pw_key user.username ≢ j
              → key_admin_first_login ≢ j
              → E.stored d' j ≡ E.stored d j)
    unfolding store_password
    store_password_stores user body d hu =
        let u = user.username in
        let new = S.sha256 body.new in
        let (d', ran, s) =
          transaction_stores L R {X = ApiError} (err write_error) (err commit_error)
            (changes user.is_admin u new) d refl refl
            (changes-IsWritable user.is_admin u new (omega arith)
              (omega (arith, D.length-sha256 body.new))) in
        (
          d',
          ground (arith, ran),
          s (pw_key u) ∙ changes_pw user.is_admin u new (E.stored d),
          λ j nw nf. s j ∙ changes_other user.is_admin u new (E.stored d) j nw nf,
        )

    logs_in_again :
        (user : AuthUser) (body : ChangePasswordBody) (d1 d2 d : E.Db)
        → length user.username ≤ 32
        → ((j : Bytes)
            → E.stored d1 j
              ≡ overlay
                  (user_entries user.username (codes "0") (0 ∷ []) (replicate 32 0))
                  (E.stored d)
                  j)
        → E.stored d2 (pw_key user.username) ≡ some (S.sha256 body.new)
        → ((j : Bytes)
            → pw_key user.username ≢ j
            → key_admin_first_login ≢ j
            → E.stored d2 j ≡ E.stored d1 j)
        → verify H S E d2 user.username body.new
          ≡ ok (record { username = user.username; is_admin = false; allowed_ports = 0 })
    logs_in_again user body d1 d2 d hu s1 s2 same =
        let u = user.username in
        let new = S.sha256 body.new in
        let kept =
          λ (j : Bytes) (nw : pw_key u ≢ j) (nf : key_admin_first_login ≢ j). same j nw nf ∙ s1 j in
        verify_exact B S E R d2 u body.new new (codes "0") (0 ∷ []) hu (D.length-sha256 body.new)
          (omega arith) (omega arith) s2
          (kept (admin_key u) (pw-ne-admin u u) (λ e. user-ne-first_login u _ (sym e))
            ∙ overlay-admin u (codes "0") (0 ∷ []) (replicate 32 0) (E.stored d))
          (kept (ports_key u) (pw-ne-ports u u) (λ e. user-ne-first_login u _ (sym e))
            ∙ overlay-ports u (codes "0") (0 ∷ []) (replicate 32 0) (E.stored d))
        ∙ rw (eq_bytes_refl new)

    -- On a reliable flash: when an administrator deletes a user between the check and the write of a
    -- change of that user's password, the account is back. With these two requests alone a state is
    -- reached in which the user logs in with the new password, though without ports and rights. (The
    -- check passes at the start; the username has at most 32 bytes.)
    pub deleted_user_returns :
        (user : AuthUser) (body : ChangePasswordBody) (k : Bytes) (d : E.Db)
        → length user.username ≤ 32
        → check_password H S E user body d ≡ (ok k, d)
        → (t : Server E) × Reach H S E
            (λ c. c ≡ delete_user user.username)
            (λ v b. (v ≡ user) × (b ≡ body))
            (record { db = d; waiting = [] })
            t
          × (t.waiting ≡ [])
          × (verify H S E t.db user.username body.new
              ≡ ok (record { username = user.username; is_admin = false; allowed_ports = 0 }))
    deleted_user_returns user body k d hu passed =
        let u = user.username in
        let new = S.sha256 body.new in
        let key : pw_key u ≡ k = of_some (
          sym (user_pw_key_lem B u (omega arith))
          ∙ (check_password_passes H S E user body d k passed).0) in
        let (d1, deleted, s1) = delete_user_stores B D L R u d hu in
        let (d2, changed, s2, same) = store_password_stores user body d1 hu in
        let c : Change = record { user = user; body = body; pw_key = k } in
        let reached : change_db H S E c (call_db H S E (delete_user u) d) ≡ d2 =
          ap (λ r. change_db H S E c r.1) deleted ∙ (rw (← key) (ap (λ r. r.1) changed)) in
        (
          record { db = change_db H S E c (call_db H S E (delete_user u) d); waiting = [] },
          next
              (next
                (next here
                  (check user body k (record { db = d; waiting = [] }) (refl, refl) passed))
                (call (delete_user u) (record { db = d; waiting = c ∷ [] }) refl))
              (store c [] [] (record { db = call_db H S E (delete_user u) d; waiting = c ∷ [] })
                refl),
          refl,
          rw reached (logs_in_again user body d1 d2 d hu s1 s2 same),
        )
