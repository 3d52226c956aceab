-- ===== src/Web/Admin/Interleaving/Examples.antt =====
-- The theorems about interleaved requests at concrete inputs.
use cro_pduster.Prelude.{
  get_or, ◌≤◌, ◌≡◌, ◌≢◌, refl, ap, false, some, [], ◌∷◌, Bytes, codes, length, arith,
}
use cro_pduster.Platform.Memory.{
  heapless, heapless-IsBounded, sha2, sha2-IsDigest, ekv, ekv-IsAtomic, ekv-IsReliable,
}
use cro_pduster.Outcome.{ok}
use cro_pduster.Storage.Keys.{user_pw_key, key_admin_first_login}
use cro_pduster.Storage.Keys.Laws.{pw_key}
use cro_pduster.Storage.UserEntries.{user_entries}
use cro_pduster.Auth.{AuthUser, verify}
use cro_pduster.Web.Admin.{
  ChangePasswordBody, CreateUserBody, api_ok, check_password, store_password,
  handle_password_change,
}
use cro_pduster.Web.Admin.Interleaving.{
  Call, create_user, delete_user, Server, call_db, call, Reach, here, next,
}
use cro_pduster.Web.Admin.Interleaving.Writes.{IsApart}
use cro_pduster.Web.Admin.Interleaving.Protected.{password_protected}
use cro_pduster.Web.Admin.Interleaving.Serial.{change_serializes}
use cro_pduster.Web.Admin.Interleaving.Deleted.{deleted_user_returns}

abbrev bob : AuthUser
bob = record { username = codes "bob"; is_admin = false; allowed_ports = 5 }

abbrev with_bob : ekv.Db
with_bob = user_entries bob.username (codes "0") (5 ∷ []) (sha2.sha256 (codes "secret"))

abbrev change : ChangePasswordBody
change = record { old = codes "secret"; new = codes "better" }

abbrev eve : CreateUserBody
eve = record { username = codes "eve"; password = codes "pw"; ports = 3; admin = false }

passes : check_password heapless sha2 ekv bob change with_bob ≡ (ok (pw_key bob.username), with_bob)
unfolding check_password user_pw_key
passes = refl

abbrev with_lamp : ekv.Db
with_lamp = (codes "p/0/name", codes "Lamp") ∷ with_bob

change_serializes_example :
    (e : ekv.Db) × (store_password heapless sha2 ekv bob change (pw_key bob.username) with_lamp
      ≡ (ok api_ok, e))
    × (handle_password_change heapless sha2 ekv bob change with_lamp ≡ (ok api_ok, e))
    × (ekv.stored e (pw_key bob.username) ≡ some (sha2.sha256 change.new))
    × (ekv.stored e key_admin_first_login ≡ ekv.stored with_lamp key_admin_first_login)
    × ((j : Bytes)
        → pw_key bob.username ≢ j
        → key_admin_first_login ≢ j
        → ekv.stored e j ≡ ekv.stored with_lamp j)
change_serializes_example =
    change_serializes heapless sha2-IsDigest ekv-IsAtomic ekv-IsReliable heapless-IsBounded bob
      change (pw_key bob.username) with_bob with_lamp (omega arith) passes refl

deleted_user_returns_example :
    (t : Server ekv) × Reach heapless sha2 ekv
      (λ c. c ≡ delete_user bob.username)
      (λ v b. (v ≡ bob) × (b ≡ change))
      (record { db = with_bob; waiting = [] })
      t
    × (t.waiting ≡ [])
    × (verify heapless sha2 ekv t.db bob.username change.new
        ≡ ok (record { username = bob.username; is_admin = false; allowed_ports = 0 }))
deleted_user_returns_example =
    deleted_user_returns heapless-IsBounded sha2-IsDigest ekv-IsAtomic ekv-IsReliable bob change
      (pw_key bob.username) with_bob (omega arith) passes

-- Eve is created, and tries a change of bob's password with a wrong one.
abbrev Asks : Call → Type 0
Asks c = c ≡ create_user eve

abbrev guess : ChangePasswordBody
guess = record { old = codes "wrong"; new = codes "mine" }

abbrev Changes : AuthUser → ChangePasswordBody → Type 0
Changes user body = (user ≡ bob) × (body ≡ guess)

abbrev at_start : Server ekv
at_start = record { db = with_bob; waiting = [] }

abbrev with_eve : Server ekv
with_eve = record { db = call_db heapless sha2 ekv (create_user eve) with_bob; waiting = [] }

created : Reach heapless sha2 ekv Asks Changes at_start with_eve
created = next here (call (create_user eve) at_start refl)

apart : (c : Call) → Asks c → IsApart bob.username c
apart c e = rw e (omega arith, λ same. ground (arith, ap (λ (t : Bytes). get_or t 0 0) same))

wrong_hash : sha2.sha256 guess.old ≢ sha2.sha256 (codes "secret")
wrong_hash e = ground (arith, ap (λ (t : Bytes). get_or t 0 0) e)

ignorant :
    (user : AuthUser) (body : ChangePasswordBody)
    → Changes user body
    → (length user.username ≤ 32)
      × (user.username ≡ bob.username → sha2.sha256 body.old ≢ sha2.sha256 (codes "secret"))
ignorant user body (u, b) = rw (u, b) (omega arith, λ same. wrong_hash)

password_protected_example :
    ekv.stored with_eve.db (pw_key bob.username) ≡ some (sha2.sha256 (codes "secret"))
password_protected_example =
    password_protected sha2 heapless-IsBounded ekv-IsAtomic bob.username
      (sha2.sha256 (codes "secret")) apart ignorant created refl refl
