-- ===== src/Auth/Examples.antt =====
-- Logins, and the theorems about them at concrete inputs.
use cro_pduster.Prelude.{
  ◌≤◌, ◌≡◌, refl, true, false, some, [], ◌∷◌, ◌++◌, Bytes, codes, length, replicate, arith,
}
use cro_pduster.Platform.Memory.{
  heapless, heapless-IsBounded, sha2, base64, base64-IsCodec, ekv, ekv-IsAtomic,
}
use cro_pduster.Outcome.{ok, err, panic}
use cro_pduster.Text.{eq_ignore_ascii_case, is_utf8, find}
use cro_pduster.Storage.Keys.{user_admin_key, user_ports_key, user_pw_key}
use cro_pduster.Storage.Keys.Laws.{admin_key, ports_key, pw_key}
use cro_pduster.Storage.UserEntries.{user_entries}
use cro_pduster.Auth.{AuthUser, AuthError, credentials, verify, auth_user, admin_user}
use cro_pduster.Auth.Credentials.{credentials_header}
use cro_pduster.Auth.Verify.{user_of, verify_sound}
use cro_pduster.Auth.Extract.{Authenticated, auth_user_sound, admin_user_lem, auth_user_panics}

abbrev bob : Bytes
bob = codes "bob"

abbrev secret : Bytes
secret = codes "secret"

-- A database that holds one user.
abbrev with_bob : ekv.Db
with_bob = user_entries bob (codes "1") (5 ∷ []) (sha2.sha256 secret)

abbrev bob_user : AuthUser
bob_user = record { username = bob; is_admin = true; allowed_ports = 5 }

credentials_header_example :
    credentials base64 (some (codes "bAsIc " ++ base64.encode (bob ++ (b':' ∷ codes "se:cret"))))
    ≡ ok (bob, codes "se:cret")
unfolding eq_ignore_ascii_case is_utf8
credentials_header_example =
    credentials_header base64-IsCodec (codes "bAsIc ") bob (codes "se:cret") refl refl (omega arith)
      refl (omega arith)

login : auth_user heapless sha2 ekv base64 with_bob (some (codes "Basic bob:secret")) ≡ ok bob_user
unfolding auth_user credentials verify eq_ignore_ascii_case is_utf8 find user_pw_key user_admin_key
    user_ports_key
login = refl

not_utf8 : is_utf8 (0xE2 ∷ 0x82 ∷ 0xAC ∷ 0xED ∷ 0xA0 ∷ 0x80 ∷ []) ≡ false
unfolding is_utf8
not_utf8 = refl

verify_login : verify heapless sha2 ekv with_bob bob secret ≡ ok bob_user
unfolding verify user_pw_key user_admin_key user_ports_key
verify_login = refl

verify_sound_example :
    (flag : Bytes) × (ports : Bytes) × (ekv.stored with_bob (pw_key bob)
      ≡ some (sha2.sha256 secret))
    × (ekv.stored with_bob (admin_key bob) ≡ some flag)
    × (ekv.stored with_bob (ports_key bob) ≡ some ports)
    × (bob_user ≡ user_of bob flag ports)
    × (length bob ≤ 32)
    × (length flag ≤ 1)
    × (length ports ≤ 1)
verify_sound_example =
    verify_sound heapless-IsBounded sha2 ekv ekv-IsAtomic with_bob bob secret bob_user verify_login

auth_user_sound_example :
    Authenticated sha2 ekv base64 with_bob (some (codes "Basic bob:secret")) bob_user
auth_user_sound_example =
    auth_user_sound heapless-IsBounded sha2 ekv-IsAtomic base64-IsCodec with_bob
      (some (codes "Basic bob:secret")) bob_user login

admin_user_lem_example :
    ((user : AuthUser)
      → admin_user heapless sha2 ekv base64 with_bob (some (codes "Basic bob:secret")) ≡ ok user
      → (auth_user heapless sha2 ekv base64 with_bob (some (codes "Basic bob:secret")) ≡ ok user)
        × (ekv.stored with_bob (admin_key user.username) ≡ some (codes "1")))
    × ((user : AuthUser)
        → auth_user heapless sha2 ekv base64 with_bob (some (codes "Basic bob:secret")) ≡ ok user
        → ekv.stored with_bob (admin_key user.username) ≡ some (codes "1")
        → admin_user heapless sha2 ekv base64 with_bob (some (codes "Basic bob:secret")) ≡ ok user)
    × ((e : AuthError)
        → auth_user heapless sha2 ekv base64 with_bob (some (codes "Basic bob:secret")) ≡ err e
        → admin_user heapless sha2 ekv base64 with_bob (some (codes "Basic bob:secret")) ≡ err tt)
admin_user_lem_example =
    admin_user_lem heapless-IsBounded sha2 ekv-IsAtomic base64-IsCodec with_bob
      (some (codes "Basic bob:secret"))

abbrev long_name : Bytes
long_name = replicate 60 b'a'

auth_user_panics_example :
    auth_user heapless sha2 ekv base64 []
      (some (codes "Basic " ++ base64.encode (long_name ++ (b':' ∷ []))))
    ≡ panic
unfolding is_utf8
auth_user_panics_example =
    auth_user_panics heapless-IsBounded sha2 ekv base64-IsCodec [] long_name [] (omega arith)
      (omega arith) refl (omega arith)
