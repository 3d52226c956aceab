-- ===== src/Web/Admin/Reset.antt =====
-- The database after a factory reset.
use cro_pduster.Prelude.{
  ◌≤◌, ◌≡◌, ◌≢◌, ◌∙◌, sym, true, none, [], ◌∷◌, Bytes, codes, length, eq_bytes, eq_bytes_ne, arith,
  if◌then◌else◌,
}
use cro_pduster.Platform.{Heapless, IsBounded, Sha2, IsDigest, Ekv, IsAtomic, IsReliable}
use cro_pduster.Outcome.{ok, err}
use cro_pduster.Transaction.Laws.{overlay, overlay-ext}
use cro_pduster.Storage.Keys.Laws.{
  admin_key, ports_key, pw_key, user_key-injective, pw-ne-admin, pw-ne-ports,
}
use cro_pduster.Storage.Database.Defaults.{default_entries, seed_defaults_stores}
use cro_pduster.Auth.{invalid_credentials, verify}
use cro_pduster.Auth.Verify.{verify_exact, verify_unknown}
use cro_pduster.Web.Admin.{handle_factory_reset}

abbrev admin_name : Bytes
admin_name = codes "admin"

-- The defaults of the ports and flags hold no user.
pub defaults_no_user :
    (S : Sha2) (u : Bytes)
    → u ≢ admin_name
    → overlay (default_entries S) (λ _. none) (pw_key u) ≡ none
defaults_no_user S u ne = rw (
  eq_bytes_ne (pw_key admin_name) (pw_key u) (λ e. ne (sym (user_key-injective _ _ _ e))),
  eq_bytes_ne (ports_key admin_name) (pw_key u) (λ e. pw-ne-ports u admin_name (sym e)),
  eq_bytes_ne (admin_key admin_name) (pw_key u) (λ e. pw-ne-admin u admin_name (sym e)),
)

module _ {H : Heapless} {S : Sha2} {E : Ekv} where
  module _ (B : IsBounded H) (D : IsDigest S) (L : IsAtomic E) (R : IsReliable E) where
    -- On a reliable flash a factory reset leaves exactly the default entries: `admin` logs in with
    -- any password that has the hash of `admin`, as an administrator with all eight ports, and no
    -- other user (of at most 56 bytes) can log in.
    pub factory_reset_login :
        {X : Type 0} (d : E.Db)
        → (d' : E.Db) × (handle_factory_reset H S E {X = X} d ≡ (ok tt, d'))
          × ((j : Bytes) → E.stored d' j ≡ overlay (default_entries S) (λ _. none) j)
          × ((password : Bytes)
              → verify H S E d' admin_name password ≡ (
                  if eq_bytes (S.sha256 admin_name) (S.sha256 password)
                  then ok (record { username = admin_name; is_admin = true; allowed_ports = 255 })
                  else err invalid_credentials))
          × ((u password : Bytes)
              → length u ≤ 56
              → u ≢ admin_name
              → verify H S E d' u password ≡ err invalid_credentials)
    unfolding handle_factory_reset
    factory_reset_login {X} d =
        let clean = (E.format d).1 in
        let (d', ran, s) = seed_defaults_stores B D L R {X = X} clean in
        let all : (j : Bytes) → E.stored d' j ≡ overlay (default_entries S) (λ _. none) j = λ j.
          s j ∙ overlay-ext (default_entries S) _ _ j (λ i. L.stored-format d i (R.format_ok d)) in
        (
          d',
          ran,
          all,
          λ password.
              verify_exact B S E R d' admin_name password (S.sha256 admin_name) (codes "1")
                (255 ∷ []) (omega arith) (D.length-sha256 admin_name) (omega arith) (omega arith)
                (all (pw_key admin_name)) (all (admin_key admin_name)) (all (ports_key admin_name)),
          λ u password hu ne.
              verify_unknown B S E L d' u password hu (all (pw_key u) ∙ defaults_no_user S u ne),
        )
