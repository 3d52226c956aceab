-- ===== src/Web/Admin/Password.antt =====
-- Changing a password, and the login and status page that follow.
use cro_pduster.Prelude.{
  ◌≤◌, ◌≡◌, ◌≢◌, refl, ◌∙◌, Bool, true, false, Option, some, none, [], ◌∷◌, ◌++◌, Bytes, codes,
  length, eq_bytes_ne, eq_bytes_refl, arith, if◌then◌else◌,
}
use cro_pduster.Platform.{Heapless, IsBounded, Sha2, IsDigest, Ekv, IsAtomic, IsReliable}
use cro_pduster.Outcome.{ok, err}
use cro_pduster.Transaction.{Entries}
use cro_pduster.Transaction.Laws.{IsWritable, overlay, transaction_stores}
use cro_pduster.Storage.Keys.{key_admin_first_login}
use cro_pduster.Storage.Keys.Laws.{pw_key, user_pw_key_lem}
use cro_pduster.Storage.UserEntries.{length-user_key}
use cro_pduster.Auth.{AuthUser}
use cro_pduster.Auth.Verify.{into_buffer_full}
use cro_pduster.Web.Admin.{
  ApiError, ChangePasswordBody, api_ok, write_error, commit_error, wrong_credentials,
  handle_password_change,
}

-- What the change writes.
abbrev pub changes : Bool → Bytes → Bytes → Entries
changes admin u hash =
    (if admin then (key_admin_first_login, codes "0") ∷ [] else []) ++ ((pw_key u, hash) ∷ [])

pub changes-IsWritable :
    (admin : Bool) (u hash : Bytes)
    → length u ≤ 59
    → length hash ≤ 256
    → IsWritable none (changes admin u hash)
changes-IsWritable true u hash hu hh =
    (tt, omega arith, omega arith, (refl, omega (arith, length-user_key u (codes "/pw")), hh, tt))
changes-IsWritable false u hash hu hh = (tt, omega (arith, length-user_key u (codes "/pw")), hh, tt)

pub changes_pw :
    (admin : Bool) (u hash : Bytes) (f : Bytes → Option Bytes)
    → overlay (changes admin u hash) f (pw_key u) ≡ some hash
changes_pw true u hash f = rw (eq_bytes_refl (pw_key u))
changes_pw false u hash f = rw (eq_bytes_refl (pw_key u))

changes_flag :
    (admin : Bool) (u hash : Bytes) (f : Bytes → Option Bytes)
    → overlay (changes admin u hash) f key_admin_first_login
      ≡ (if admin then some (codes "0") else f key_admin_first_login)
changes_flag true u hash f = refl
changes_flag false u hash f = refl

pub changes_other :
    (admin : Bool) (u hash : Bytes) (f : Bytes → Option Bytes) (j : Bytes)
    → pw_key u ≢ j
    → key_admin_first_login ≢ j
    → overlay (changes admin u hash) f j ≡ f j
changes_other true u hash f j nw nf = rw (eq_bytes_ne _ _ nw, eq_bytes_ne _ _ nf)
changes_other false u hash f j nw nf = rw (eq_bytes_ne _ _ nw)

module _ {H : Heapless} {S : Sha2} {E : Ekv} where
  module _ (B : IsBounded H) (D : IsDigest S) (L : IsAtomic E) (R : IsReliable E) where
    -- On a reliable flash, for a user whose stored hash is `hash`: if the old password does not
    -- have that hash, the change is refused as `Invalid credentials` and the database is as it was.
    -- If it has, the hash of the new password is stored in its place, an administrator's change
    -- clears the first-login flag, and every other key keeps its value.
    pub password_change_lem :
        (user : AuthUser) (body : ChangePasswordBody) (hash : Bytes) (d : E.Db)
        → length user.username ≤ 32
        → length hash ≡ 32
        → E.stored d (pw_key user.username) ≡ some hash
        → (hash ≢ S.sha256 body.old
            → handle_password_change H S E user body d ≡ (err wrong_credentials, d))
          × (hash ≡ S.sha256 body.old
              → (d' : E.Db) × (handle_password_change H S E user body d ≡ (ok api_ok, d'))
                × (E.stored d' (pw_key user.username) ≡ some (S.sha256 body.new))
                × (E.stored d' key_admin_first_login ≡ (
                    if user.is_admin then some (codes "0") else E.stored d key_admin_first_login))
                × ((j : Bytes)
                    → pw_key user.username ≢ j
                    → key_admin_first_login ≢ j
                    → E.stored d' j ≡ E.stored d j))
    unfolding handle_password_change
    password_change_lem user body hash d hu h32 there =
        let u = user.username in
        let new = S.sha256 body.new in
        let entries = changes user.is_admin u new in
        let read = R.read_ok d (pw_key u) hash 32 there (omega arith) in
        let buffer = into_buffer_full hash 32 h32 in
        let (d', ran, s) =
          transaction_stores L R {X = ApiError} (err write_error) (err commit_error) entries d refl
            refl
            (changes-IsWritable user.is_admin u new (omega arith)
              (omega (arith, D.length-sha256 body.new))) in
        (
          λ ne. ground (
            arith,
            user_pw_key_lem B u (omega arith),
            read,
            buffer,
            eq_bytes_ne hash (S.sha256 body.old) ne,
          ),
          λ e. (
            d',
            ground
                (arith, user_pw_key_lem B u (omega arith), read, buffer, eq_bytes_refl hash, ran),
            s (pw_key u) ∙ changes_pw user.is_admin u new (E.stored d),
            s key_admin_first_login ∙ changes_flag user.is_admin u new (E.stored d),
            λ j nw nf. s j ∙ changes_other user.is_admin u new (E.stored d) j nw nf,
          ),
        )
