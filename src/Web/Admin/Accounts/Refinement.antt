-- ===== src/Web/Admin/Accounts/Refinement.antt =====
-- The handlers of application/src/web/admin.rs keep what is promised for the accounts, over any
-- requests in a row, as a login (application/src/auth.rs) sees it.
use cro_pduster.Prelude.{
  ◌≤◌, ◌≡◌, ◌≢◌, refl, sym, ◌∙◌, Option, none, some, List, [], ◌∷◌, Bytes, length, replicate,
  eq_bytes_ne, arith,
}
use cro_pduster.Platform.{Heapless, IsBounded, Sha2, IsDigest, Ekv, IsAtomic, IsReliable}
use cro_pduster.Auth.{verify}
use cro_pduster.Auth.Verify.{verify_exact, verify_unknown}
use cro_pduster.Web.Admin.Users.{flag_of, user_of_flag}
use cro_pduster.Web.Admin.Accounts.{
  Account, Request, admin_call, password_change, accounts_after, login, IsProper, AreProper,
  request_db, requests_db, absent, deleted, present, Represents, account_after,
}
use cro_pduster.Web.Admin.Accounts.Calls.{HoldsIn, call-Holds}
use cro_pduster.Web.Admin.Accounts.Changes.{change-Holds}

module _ {H : Heapless} {S : Sha2} {E : Ekv} where
  module _ (B : IsBounded H) (D : IsDigest S) (L : IsAtomic E) (R : IsReliable E) where
    request-Holds :
        (r : Request) (d : E.Db) (u : Bytes) (o : Option Account)
        → IsProper S r
        → HoldsIn E d u o
        → HoldsIn E (request_db H S E r d) u (account_after S r u o)
    request-Holds (admin_call c) d u o p h = call-Holds B D L R u c d o p h
    request-Holds (password_change user body) d u o p h = change-Holds B D L R user body d u o p h

    requests-Represents :
        (rs : List Request) (d : E.Db) (A : Bytes → Option Account)
        → AreProper S rs
        → Represents E d A
        → Represents E (requests_db H S E rs d) (accounts_after S rs A)
    requests-Represents [] d A p h u hu = h u hu
    requests-Represents (r ∷ rs) d A p h u hu =
        requests-Represents rs (request_db H S E r d) (λ v. account_after S r v (A v)) p.1
          (λ v hv. request-Holds r d v (A v) p.0 (h v hv)) u hu

    login_lem :
        (d : E.Db) (u password : Bytes) (o : Option Account)
        → length u ≤ 32
        → S.sha256 password ≢ replicate 32 0
        → HoldsIn E d u o
        → verify H S E d u password ≡ login S o u password
    login_lem d u password none hu nz (absent w) =
        verify_unknown B S E L d u password (omega arith) w
    login_lem d u password none hu nz (deleted f p w hf lf hp lp) =
        verify_exact B S E R d u password (replicate 32 0) f p hu refl lf lp w hf hp
        ∙ rw (eq_bytes_ne (replicate 32 0) (S.sha256 password) (λ e. nz (sym e)))
    login_lem d u password (some a) hu nz (present b w l f p) =
        verify_exact B S E R d u password b.hash (flag_of b.is_admin) (b.ports ∷ []) hu l
          (ground arith) (omega arith) w f p
        ∙ rw (user_of_flag u b.is_admin b.ports)

    -- On a reliable flash, after any requests in a row, logins succeed and fail as the accounts say
    -- that the requests make of those before them, with the rights and ports of the account: a
    -- refinement of the entries by a map from usernames to accounts. (The database stands for the
    -- accounts at the start; names have at most 32 bytes; neither the password nor an old password of
    -- a change has 32 zero bytes as its hash.)
    pub logins_refine :
        (rs : List Request) (d : E.Db) (A : Bytes → Option Account) (u password : Bytes)
        → Represents E d A
        → AreProper S rs
        → length u ≤ 32
        → S.sha256 password ≢ replicate 32 0
        → verify H S E (requests_db H S E rs d) u password
          ≡ login S (accounts_after S rs A u) u password
    logins_refine rs d A u password h p hu nz =
        login_lem (requests_db H S E rs d) u password (accounts_after S rs A u) hu nz
          (requests-Represents rs d A p h u hu)
