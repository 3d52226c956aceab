-- ===== src/Web/Admin/Checks.antt =====
-- application/src/web/admin.rs: the two halves of a change of a password. The first only reads, and
-- when it passes, the old password has the stored hash.
use cro_pduster.Prelude.{◌≡◌, refl, some, Bytes, eq_bytes→eq, Option-cases, inl, inr, arith}
use cro_pduster.Platform.{Heapless, Sha2, Ekv}
use cro_pduster.Outcome.{ok, continue}
use cro_pduster.Storage.Keys.{user_pw_key}
use cro_pduster.Auth.{AuthUser, into_buffer}
use cro_pduster.Auth.Verify.{into_buffer_full}
use cro_pduster.Web.Admin.{
  ChangePasswordBody, check_password, store_password, handle_password_change,
}

module _ (H : Heapless) (S : Sha2) (E : Ekv) (user : AuthUser) (body : ChangePasswordBody) where
  pub check_password_reads : (d : E.Db) → (check_password H S E user body d).1 ≡ d
  unfolding check_password
  check_password_reads d = ground arith

  pub check_password_passes :
      (d : E.Db) (k : Bytes)
      → check_password H S E user body d ≡ (ok k, d)
      → (user_pw_key H user.username ≡ some k) × (E.read d k 32 ≡ some (S.sha256 body.old))
  unfolding check_password
  check_password_passes d k h = elim (Option-cases (user_pw_key H user.username)) [
    | inl e ↦ (let failed = rw e at h in absurd cc)
    | inr (k', e) ↦ elim (Option-cases (E.read d k' 32)) [
      | inl r ↦ (let failed = rw (e, r) at h in absurd cc)
      | inr (v, r) ↦
          let passed = rw (e, r) at h in
          let facts : (k' ≡ k) × (v ≡ S.sha256 body.old) = (
            ground arith,
            ground
                (arith, into_buffer_full v 32, eq_bytes→eq (into_buffer 32 v) (S.sha256 body.old)),
          ) in
          (cc, cc)
    ]
  ]

  pub check_password_key :
      (d : E.Db) (k : Bytes)
      → (check_password H S E user body d).0 ≡ ok k
      → user_pw_key H user.username ≡ some k
  check_password_key d k e = (check_password_passes d k (λ i. (e i, check_password_reads d i))).0

  pub change_splits :
      (d : E.Db)
      → handle_password_change H S E user body d
        ≡ continue (check_password H S E user body d).0 (store_password H S E user body) d
  unfolding handle_password_change
  change_splits d = rw (check_password_reads d) refl
