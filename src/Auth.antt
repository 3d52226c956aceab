-- ===== src/Auth.antt =====
-- application/src/auth.rs: HTTP Basic authentication. The extractors read the database in one
-- transaction and change nothing, so the database is an argument.
pub mod Credentials
pub mod Verify
pub mod Extract
mod Examples
use cro_pduster.Prelude.{
  ℕ, suc, Bool, true, false, not, ◌||◌, Option, none, some, [], ◌∷◌, ◌++◌, Bytes, codes, length,
  take, drop, replicate, get_or, ltb, ◌==◌, eq_bytes, if◌then◌else◌,
}
use cro_pduster.Platform.{Heapless, Sha2, Base64, Ekv}
use cro_pduster.Outcome.{Result, ok, err, panic, unwrap, ok_or, reject, map_err}
use cro_pduster.Outcome.Chain.{◌>>=◌, ◌>>◌}
use cro_pduster.Text.{eq_ignore_ascii_case, is_utf8, find}
use cro_pduster.Storage.Keys.{user_admin_key, user_ports_key, user_pw_key}
use cro_pduster.Storage.Database.{hash_password}

pub record AuthUser : Type 0 where
  pub username : Bytes
  pub is_admin : Bool
  pub allowed_ports : ℕ

pub data AuthError : Type 0 where
  missing invalid_encoding invalid_credentials storage_error : AuthError

pub data StatusCode : Type 0 where
  ok_200 bad_request unauthorized forbidden method_not_allowed internal_server_error : StatusCode

-- `IntoResponse for AuthError`
pub auth_error_status : AuthError → StatusCode
auth_error_status missing = unauthorized
auth_error_status invalid_encoding = unauthorized
auth_error_status invalid_credentials = unauthorized
auth_error_status storage_error = internal_server_error

abbrev pub basic_prefix : Bytes
basic_prefix = codes "Basic "

-- The contents of a zeroed buffer of `size` bytes after `value` was read into it.
abbrev pub into_buffer : ℕ → Bytes → Bytes
into_buffer size value = value ++ drop (length value) (replicate size 0)

-- Steps 1 to 4: the header's value, if it is there, split into username and password.
unfoldable pub credentials : Base64 → Option Bytes → Result AuthError (Bytes × Bytes)
credentials B auth_header = do
  raw ← ok_or missing auth_header
  reject
      (ltb (length raw) (length basic_prefix)
        || not (eq_ignore_ascii_case (take (length basic_prefix) raw) basic_prefix))
      invalid_encoding
  decoded ← ok_or invalid_encoding (B.decode_slice (drop (length basic_prefix) raw) 128)
  reject (not (is_utf8 decoded)) invalid_encoding
  colon ← ok_or invalid_encoding (find b':' decoded)
  ok (take colon decoded, drop (suc colon) decoded)

module _ (H : Heapless) (S : Sha2) (E : Ekv) where
  -- Steps 5 to 7: the stored hash, flag and ports of the user, and the comparison.
  unfoldable pub verify : E.Db → Bytes → Bytes → Result AuthError AuthUser
  unfolding hash_password
  verify d username password = do
    pw_key ← unwrap (user_pw_key H username)
    admin_key ← unwrap (user_admin_key H username)
    ports_key ← unwrap (user_ports_key H username)
    stored_pw ← ok_or invalid_credentials (E.read d pw_key 32)
    reject (not (length stored_pw == 32)) invalid_credentials
    is_admin_bytes ← ok_or storage_error (E.read d admin_key 1)
    ports_bytes ← ok_or storage_error (E.read d ports_key 1)
    reject (not (eq_bytes (into_buffer 32 stored_pw) (hash_password S password)))
        invalid_credentials
    uname ← ok_or invalid_encoding (H.extend_from_slice 32 [] username)
    ok (record {
      username = uname;
      is_admin = get_or (into_buffer 1 is_admin_bytes) 0 0 == b'1';
      allowed_ports = get_or (into_buffer 1 ports_bytes) 0 0;
    })

  -- `FromRequestParts for AuthUser`
  unfoldable pub auth_user : Base64 → E.Db → Option Bytes → Result AuthError AuthUser
  auth_user B d auth_header = do
    (username, password) ← credentials B auth_header
    verify d username password

  -- `FromRequestParts for AdminUser`: every failure is the rejection `NotAdmin`.
  unfoldable pub admin_user : Base64 → E.Db → Option Bytes → Result (Unit {0}) AuthUser
  admin_user B d auth_header = do
    user ← map_err (λ _. tt) (auth_user B d auth_header)
    if user.is_admin then ok user else err tt
