-- ===== src/Web/Admin/Deletion.antt =====
-- Deleting a user: the writes whose errors are ignored, and the logins that follow.
use cro_pduster.Prelude.{
  ◌≤◌, ◌≡◌, ◌≢◌, refl, ◌∙◌, sym, true, none, [], ◌∷◌, Bytes, codes, length, replicate, eq_bytes_ne,
  arith,
}
use cro_pduster.Platform.{Heapless, IsBounded, Sha2, IsDigest, Ekv, IsAtomic, IsReliable}
use cro_pduster.Outcome.{ok, err}
use cro_pduster.Transaction.{Entries, write_each, transaction}
use cro_pduster.Transaction.Laws.{overlay, IsWritable, write_each_ok, transaction_stores}
use cro_pduster.Storage.Keys.Laws.{
  admin_key, ports_key, pw_key, user_admin_key_lem, user_ports_key_lem, user_pw_key_lem,
}
use cro_pduster.Storage.UserEntries.{
  user_entries, user_entries-IsWritable, overlay-pw, overlay-ports, overlay-admin, overlay_other,
}
use cro_pduster.Auth.{invalid_credentials, verify}
use cro_pduster.Auth.Verify.{verify_exact}
use cro_pduster.Web.Admin.{
  ApiError, api_ok, write_error, commit_error, write_each_ignoring, write_ignoring,
  handle_delete_user,
}

-- Where no write fails, ignoring the errors makes no difference.
module _ (H : Heapless) (E : Ekv) where
  write_each_ignoring_lem :
      (entries : Entries) (w : E.Wtx)
      → (write_each E entries w).0 ≡ true
      → write_each_ignoring H E entries w ≡ (write_each E entries w).1
  unfolding write_each_ignoring write_each
  write_each_ignoring_lem [] w h = refl
  write_each_ignoring_lem ((k, v) ∷ entries) w h =
      ground (arith, write_each_ignoring_lem entries (E.write w k v).1)

  write_ignoring_lem :
      IsReliable E
      → (entries : Entries) (d : E.Db) → IsWritable none entries
      → write_ignoring H E entries d ≡ transaction E (err write_error) (err commit_error) entries d
  unfolding write_ignoring transaction
  write_ignoring_lem R entries d h =
      let done = write_each_ok R entries (E.begin d) (rw (R.last_key-begin d) h) in
      rw (done, write_each_ignoring_lem entries (E.begin d) done)

module _ {H : Heapless} {S : Sha2} {E : Ekv} where
  module _ (B : IsBounded H) (D : IsDigest S) (L : IsAtomic E) (R : IsReliable E) where
    pub delete_user_stores :
        (username : Bytes) (d : E.Db)
        → length username ≤ 32
        → (d' : E.Db) × (handle_delete_user H E username d ≡ (ok api_ok, d'))
          × ((j : Bytes)
              → E.stored d' j
                ≡ overlay
                    (user_entries username (codes "0") (0 ∷ []) (replicate 32 0))
                    (E.stored d)
                    j)
    unfolding handle_delete_user
    delete_user_stores u d hu =
        let entries = user_entries u (codes "0") (0 ∷ []) (replicate 32 0) in
        let fits =
          user_entries-IsWritable u (codes "0") (0 ∷ []) (replicate 32 0) (omega arith)
            (omega arith) (omega arith) (omega arith) in
        let (d', ran, s) =
          transaction_stores L R {X = ApiError} (err write_error) (err commit_error) entries d refl
            refl fits in
        (
          d',
          rw
              (
                user_pw_key_lem B u (omega arith),
                user_admin_key_lem B u (omega arith),
                user_ports_key_lem B u (omega arith),
              )
              (ground (arith, write_ignoring_lem H E R entries d fits, ran)),
          s,
        )

    -- On a reliable flash, once a user with a name of at most 32 bytes is deleted, a login with
    -- that name is refused for every password whose hash is not 32 zero bytes, and all other keys
    -- keep their values.
    pub delete_user_login :
        (username : Bytes) (d : E.Db)
        → length username ≤ 32
        → (d' : E.Db) × (handle_delete_user H E username d ≡ (ok api_ok, d'))
          × ((password : Bytes)
              → S.sha256 password ≢ replicate 32 0
              → verify H S E d' username password ≡ err invalid_credentials)
          × ((j : Bytes)
              → admin_key username ≢ j
              → ports_key username ≢ j
              → pw_key username ≢ j
              → E.stored d' j ≡ E.stored d j)
    delete_user_login u d hu =
        let zeros : Bytes = replicate 32 0 in
        let nobody : Bytes = codes "0" in
        let no_ports : Bytes = 0 ∷ [] in
        let (d', ran, s) = delete_user_stores u d hu in
        (
          d',
          ran,
          λ password ne.
              verify_exact B S E R d' u password zeros nobody no_ports hu refl (omega arith)
                (omega arith) (s (pw_key u) ∙ overlay-pw u nobody no_ports zeros (E.stored d))
                (s (admin_key u) ∙ overlay-admin u nobody no_ports zeros (E.stored d))
                (s (ports_key u) ∙ overlay-ports u nobody no_ports zeros (E.stored d))
              ∙ rw (eq_bytes_ne zeros (S.sha256 password) (λ e. ne (sym e))),
          λ j na np nw. s j ∙ overlay_other u nobody no_ports zeros (E.stored d) j na np nw,
        )
