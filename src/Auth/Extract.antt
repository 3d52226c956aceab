-- ===== src/Auth/Extract.antt =====
-- The two extractors, from the header to the user.
use cro_pduster.Prelude.{
  ◌≤◌, ◌<◌, ◌≡◌, refl, ◌∙◌, sym, ap, of_some, true, Option, some, [], ◌∷◌, ◌++◌, Bytes, codes,
  length, get_or, ◌==◌, arith, drop,
}
use cro_pduster.Platform.{Heapless, IsBounded, Sha2, Base64, IsCodec, Ekv, IsAtomic}
use cro_pduster.Outcome.{Result, ok, err, panic}
use cro_pduster.Outcome.Chain.{◌>>=◌}
use cro_pduster.Text.{is_utf8}
use cro_pduster.Text.Search.{NotIn, eq_ignore_ascii_case_refl}
use mathlib.Core.Path.{subst}
use cro_pduster.Storage.Keys.Laws.{admin_key, ports_key, pw_key}
use cro_pduster.Auth.{AuthUser, AuthError, into_buffer, credentials, auth_user, admin_user}
use cro_pduster.Auth.Credentials.{credentials_sound, credentials_header}
use cro_pduster.Auth.Verify.{user_of, verify_sound, verify_panics}

-- `?` on a result that must have ended well.
bind-eq-ok :
    {E A B : Type 0} (m : Result E A) (f : A → Result E B) {b : B}
    → (m >>= f) ≡ ok b
    → (a : A) × (m ≡ ok a) × (f a ≡ ok b)
bind-eq-ok (ok a) f h = (a, refl, h)
bind-eq-ok (err e) f h = cc
bind-eq-ok panic f h = cc

-- A value read into one byte is '1' only if it is exactly the text "1".
flag_one :
    (flag : Bytes)
    → length flag ≤ 1
    → get_or (into_buffer 1 flag) 0 0 == b'1' ≡ true
    → flag ≡ codes "1"
flag_one [] h e = ground arith
flag_one (b ∷ []) h e = ground arith
flag_one (b ∷ c ∷ flag) h e = absurd (omega arith)

-- The request carried a header that decodes to the username, a colon and a password; the hash of
-- that password is what is stored for that username, and the rights are those stored for it.
abbrev pub Authenticated :
    (S : Sha2) (E : Ekv) (C : Base64) → E.Db → Option Bytes → AuthUser → Type 0
Authenticated S E C d auth_header user =
    (raw : Bytes) × (password : Bytes) × (flag : Bytes) × (ports : Bytes) × (auth_header ≡ some raw)
    × (C.decode_slice (drop 6 raw) 128 ≡ some (user.username ++ (b':' ∷ password)))
    × NotIn b':' user.username
    × (E.stored d (pw_key user.username) ≡ some (S.sha256 password))
    × (E.stored d (admin_key user.username) ≡ some flag)
    × (E.stored d (ports_key user.username) ≡ some ports)
    × (user ≡ user_of user.username flag ports)
    × (length user.username ≤ 32)
    × (length flag ≤ 1)

module _ {H : Heapless} (B : IsBounded H) (S : Sha2) {E : Ekv} (L : IsAtomic E) where
  module _ {C : Base64} (K : IsCodec C) where
    -- Every request that the extractor `AuthUser` lets through is authenticated.
    pub auth_user_sound :
        (d : E.Db) (auth_header : Option Bytes) (user : AuthUser)
        → auth_user H S E C d auth_header ≡ ok user
        → Authenticated S E C d auth_header user
    unfolding auth_user
    auth_user_sound d auth_header user h =
        let ((username, password), accepted, checked) =
          bind-eq-ok (credentials C auth_header) _ h in
        let (raw, there, decodes, no_colon, _, _) =
          credentials_sound K auth_header username password accepted in
        let (flag, ports, pw, fl, po, same, fits, short, _) =
          verify_sound B S E L d username password user checked in
        subst (Authenticated S E C d auth_header) (sym same)
          (raw, password, flag, ports, there, decodes, no_colon, pw, fl, po, refl, fits, short)

    -- The extractor `AdminUser` lets through exactly the authenticated users whose stored flag is
    -- the text `1`; every other request that does not panic is rejected as `NotAdmin`.
    pub admin_user_lem :
        (d : E.Db) (auth_header : Option Bytes)
        → ((user : AuthUser)
            → admin_user H S E C d auth_header ≡ ok user
            → (auth_user H S E C d auth_header ≡ ok user)
              × (E.stored d (admin_key user.username) ≡ some (codes "1")))
          × ((user : AuthUser)
              → auth_user H S E C d auth_header ≡ ok user
              → E.stored d (admin_key user.username) ≡ some (codes "1")
              → admin_user H S E C d auth_header ≡ ok user)
          × ((e : AuthError)
              → auth_user H S E C d auth_header ≡ err e
              → admin_user H S E C d auth_header ≡ err tt)
    unfolding admin_user
    admin_user_lem d auth_header = (
      λ user h.
          let passed : (auth_user H S E C d auth_header ≡ ok user) × (user.is_admin ≡ true) =
            ground arith in
          let (_, _, flag, _, _, _, _, _, fl, _, same, _, short) =
            auth_user_sound d auth_header user passed.0 in
          (
            passed.0,
            fl
                ∙ ap some
                    (flag_one flag short (ap (λ (u : AuthUser). u.is_admin) (sym same) ∙ passed.1)),
          ),
      λ user h one.
          let (_, _, flag, _, _, _, _, _, fl, _, same, _, short) =
            auth_user_sound d auth_header user h in
          let is_one : flag ≡ codes "1" = of_some (sym fl ∙ one) in
          let admin : user.is_admin ≡ true =
            ap (λ (u : AuthUser). u.is_admin) same
            ∙ ap (λ (f : Bytes). get_or (into_buffer 1 f) 0 0 == b'1') is_one in
          ground arith,
      λ e h. ground arith,
    )

module _ {H : Heapless} (B : IsBounded H) (S : Sha2) (E : Ekv) where
  -- A username of 57 bytes or more in the header makes the extractor panic, for any password and
  -- any database: no account is needed to make the device reset. (The whole text has at most 128
  -- bytes of UTF-8, and the name no colon.)
  pub auth_user_panics :
      {C : Base64}
      → IsCodec C
      → (d : E.Db) (username password : Bytes) → 56 < length username
      → NotIn b':' username
      → is_utf8 (username ++ (b':' ∷ password)) ≡ true
      → length (username ++ (b':' ∷ password)) ≤ 128
      → auth_user H S E C d (some (codes "Basic " ++ C.encode (username ++ (b':' ∷ password))))
        ≡ panic
  unfolding auth_user
  auth_user_panics K d username password long no_colon utf8 fits =
      rw
        (credentials_header K (codes "Basic ") username password refl
          (eq_ignore_ascii_case_refl (codes "Basic ")) no_colon utf8 fits)
        (verify_panics B S E d username password long)
