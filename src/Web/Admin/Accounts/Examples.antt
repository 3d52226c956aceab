-- ===== src/Web/Admin/Accounts/Examples.antt =====
-- The refinement at a concrete run of requests.
use cro_pduster.Prelude.{
  ◌≡◌, ◌≢◌, refl, ap, true, false, Option, none, List, [], ◌∷◌, Bytes, codes, replicate, get_or,
  arith,
}
use cro_pduster.Platform.Memory.{
  heapless, heapless-IsBounded, sha2, sha2-IsDigest, ekv, ekv-IsAtomic, ekv-IsReliable,
}
use cro_pduster.Outcome.{ok}
use cro_pduster.Auth.{verify}
use cro_pduster.Web.Admin.{ChangePasswordBody, CreateUserBody}
use cro_pduster.Web.Admin.Interleaving.{create_user, delete_user, set_user_ports}
use cro_pduster.Web.Admin.Accounts.{
  Account, Request, admin_call, password_change, accounts_after, login, requests_db, absent,
}
use cro_pduster.Web.Admin.Accounts.Refinement.{logins_refine}

abbrev eve : CreateUserBody
eve = record { username = codes "eve"; password = codes "pw"; ports = 3; admin = false }

abbrev bob : CreateUserBody
bob = record { username = codes "bob"; password = codes "secret"; ports = 1; admin = true }

abbrev change : ChangePasswordBody
change = record { old = codes "pw"; new = codes "better" }

abbrev requests : List Request
requests =
    admin_call (create_user eve)
    ∷ admin_call (create_user bob)
    ∷ password_change (record { username = codes "eve"; is_admin = false; allowed_ports = 3 })
        change
    ∷ admin_call (set_user_ports (codes "eve") (record { ports = 7 }))
    ∷ admin_call (delete_user (codes "bob"))
    ∷ []

abbrev nobody : Bytes → Option Account
nobody u = none

eve_logs_in :
    login sha2 (accounts_after sha2 requests nobody (codes "eve")) (codes "eve") (codes "better")
    ≡ ok (record { username = codes "eve"; is_admin = false; allowed_ports = 7 })
eve_logs_in = refl

not_zeros : (m : Bytes) → get_or (sha2.sha256 m) 0 0 ≢ 0 → sha2.sha256 m ≢ replicate 32 0
not_zeros m ne e = ne (ap (λ (t : Bytes). get_or t 0 0) e)

logins_refine_example :
    verify heapless sha2 ekv
      (requests_db heapless sha2 ekv requests [])
      (codes "eve")
      (codes "better")
    ≡ login sha2 (accounts_after sha2 requests nobody (codes "eve")) (codes "eve") (codes "better")
logins_refine_example =
    logins_refine heapless-IsBounded sha2-IsDigest ekv-IsAtomic ekv-IsReliable requests [] nobody
      (codes "eve") (codes "better") (λ u hu. absent refl)
      (
        omega arith,
        (
          omega arith,
          ((omega arith, not_zeros change.old (omega arith)), (omega arith, (omega arith, tt))),
        ),
      )
      (omega arith) (not_zeros change.new (omega arith))
