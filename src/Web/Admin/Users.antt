-- ===== src/Web/Admin/Users.antt =====
-- Creating and deleting users, seen from the login that follows.
use cro_pduster.Prelude.{
  ℕ, ◌≤◌, ◌≡◌, ◌≢◌, refl, ◌∙◌, Bool, true, false, [], ◌∷◌, Bytes, codes, length, eq_bytes, arith,
  if◌then◌else◌,
}
use cro_pduster.Platform.{Heapless, IsBounded, Sha2, IsDigest, Ekv, IsAtomic, IsReliable}
use cro_pduster.Outcome.{ok, err}
use cro_pduster.Transaction.Laws.{overlay, transaction_stores}
use cro_pduster.Storage.Keys.Laws.{
  admin_key, ports_key, pw_key, user_admin_key_lem, user_ports_key_lem, user_pw_key_lem,
}
use cro_pduster.Storage.UserEntries.{
  user_entries, user_entries-IsWritable, overlay-pw, overlay-ports, overlay-admin, overlay_other,
}
use cro_pduster.Auth.{invalid_credentials, verify}
use cro_pduster.Auth.Verify.{user_of, verify_exact}
use cro_pduster.Web.Admin.{
  ApiError, CreateUserBody, api_ok, write_error, commit_error, handle_create_user,
}

abbrev pub flag_of : Bool → Bytes
flag_of b = if b then codes "1" else codes "0"

pub user_of_flag :
    (u : Bytes) (admin : Bool) (ports : ℕ)
    → user_of u (flag_of admin) (ports ∷ [])
      ≡ record { username = u; is_admin = admin; allowed_ports = ports }
user_of_flag u true ports = refl
user_of_flag u false ports = refl

module _ {H : Heapless} {S : Sha2} {E : Ekv} where
  module _ (B : IsBounded H) (D : IsDigest S) (L : IsAtomic E) (R : IsReliable E) where
    -- A new user's entries are stored, whatever was stored for that name before.
    pub create_user_stores :
        (body : CreateUserBody) (d : E.Db)
        → length body.username ≤ 32
        → (d' : E.Db) × (handle_create_user H S E body d ≡ (ok api_ok, d'))
          × ((j : Bytes)
              → E.stored d' j
                ≡ overlay
                    (user_entries body.username
                      (flag_of body.admin)
                      (body.ports ∷ [])
                      (S.sha256 body.password))
                    (E.stored d)
                    j)
    unfolding handle_create_user
    create_user_stores body d hu =
        let u = body.username in
        let (d', ran, s) =
          transaction_stores L R {X = ApiError} (err write_error) (err commit_error)
            (user_entries u (flag_of body.admin) (body.ports ∷ []) (S.sha256 body.password)) d refl
            refl
            (user_entries-IsWritable u (flag_of body.admin) (body.ports ∷ [])
              (S.sha256 body.password) (omega arith) (ground arith) (omega arith)
              (omega (arith, D.length-sha256 body.password))) in
        (
          d',
          rw
              (
                user_pw_key_lem B u (omega arith),
                user_admin_key_lem B u (omega arith),
                user_ports_key_lem B u (omega arith),
              )
              (ground (arith, ran)),
          s,
        )

    -- On a reliable flash a new user with a name of at most 32 bytes is stored: from then on a
    -- login with that name succeeds exactly with a password of the same hash, as an administrator
    -- if that was asked, with the ports that were asked. All other keys keep their values.
    pub create_user_login :
        (body : CreateUserBody) (d : E.Db)
        → length body.username ≤ 32
        → (d' : E.Db) × (handle_create_user H S E body d ≡ (ok api_ok, d'))
          × ((password : Bytes)
              → verify H S E d' body.username password ≡ (
                  if eq_bytes (S.sha256 body.password) (S.sha256 password)
                  then ok (record {
                    username = body.username;
                    is_admin = body.admin;
                    allowed_ports = body.ports;
                  })
                  else err invalid_credentials))
          × ((j : Bytes)
              → admin_key body.username ≢ j
              → ports_key body.username ≢ j
              → pw_key body.username ≢ j
              → E.stored d' j ≡ E.stored d j)
    create_user_login body d hu =
        let u = body.username in
        let flag = flag_of body.admin in
        let ports : Bytes = body.ports ∷ [] in
        let hash = S.sha256 body.password in
        let (d', ran, s) = create_user_stores body d hu in
        (
          d',
          ran,
          λ password. rw (← user_of_flag u body.admin body.ports) (
              verify_exact B S E R d' u password hash flag ports hu (D.length-sha256 body.password)
                (ground arith) (omega arith)
                (s (pw_key u) ∙ overlay-pw u flag ports hash (E.stored d))
                (s (admin_key u) ∙ overlay-admin u flag ports hash (E.stored d))
                (s (ports_key u) ∙ overlay-ports u flag ports hash (E.stored d))),
          λ j na np nw. s j ∙ overlay_other u flag ports hash (E.stored d) j na np nw,
        )
