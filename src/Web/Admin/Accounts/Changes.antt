-- ===== src/Web/Admin/Accounts/Changes.antt =====
-- A change of a password does to the entries of every user what is promised for the account.
use cro_pduster.Prelude.{
  of_some, ◌≤◌, ◌≡◌, ◌≢◌, refl, ap, sym, ◌∙◌, Option, none, some, Bytes, length, replicate,
  eq_bytes, eq_bytes→eq, Bool-cases, Option-cases, inl, inr, arith,
}
use mathlib.Core.Path.{subst}
use cro_pduster.Platform.{Heapless, IsBounded, Sha2, IsDigest, Ekv, IsAtomic, IsReliable}
use cro_pduster.Outcome.{Result, ok, err, panic, continue}
use cro_pduster.Storage.Keys.{key_admin_first_login}
use cro_pduster.Storage.Keys.Laws.{
  user_key, pw_key, user_pw_key_lem, user_key-injective, pw-ne-admin, pw-ne-ports,
  user-ne-first_login,
}
use cro_pduster.Auth.{AuthUser}
use cro_pduster.Web.Admin.{
  ApiError, ChangePasswordBody, check_password, store_password, handle_password_change,
}
use cro_pduster.Web.Admin.Checks.{change_splits, check_password_key}
use cro_pduster.Web.Admin.Password.{password_change_lem}
use cro_pduster.Web.Admin.Interleaving.Writes.{store_password-Avoids}
use cro_pduster.Web.Admin.Accounts.{
  Account, absent, deleted, present, account_after, password_change, IsProper, with_password,
}
use cro_pduster.Web.Admin.Accounts.Entries.{Holds-same}
use cro_pduster.Web.Admin.Accounts.Calls.{HoldsIn, ne_of_eq_bytes}

module _ {H : Heapless} {S : Sha2} {E : Ekv} (B : IsBounded H) (D : IsDigest S) (L : IsAtomic E)
    (R : IsReliable E) where
  -- Only the user's own hash is written, and the flag.
  continue_keeps :
      (user : AuthUser) (body : ChangePasswordBody) (d : E.Db) (j k0 : Bytes)
      (r : Result ApiError Bytes)
      → ((k : Bytes) → r ≡ ok k → k ≡ k0)
      → k0 ≢ j
      → key_admin_first_login ≢ j
      → E.stored (continue r (store_password H S E user body) d).1 j ≡ E.stored d j
  continue_keeps user body d j k0 (ok k) built ne nf =
      store_password-Avoids L H j S user body k d (λ same. ne (sym (built k refl) ∙ same)) nf
  continue_keeps user body d j k0 (err e) built ne nf = refl
  continue_keeps user body d j k0 panic built ne nf = refl

  change_keeps_others :
      (user : AuthUser) (body : ChangePasswordBody) (d : E.Db) (j : Bytes)
      → length user.username ≤ 32
      → pw_key user.username ≢ j
      → key_admin_first_login ≢ j
      → E.stored (handle_password_change H S E user body d).1 j ≡ E.stored d j
  change_keeps_others user body d j hu ne nf =
      let key = user_pw_key_lem B user.username (omega arith) in
      ap (λ r. E.stored r.1 j) (change_splits H S E user body d)
      ∙ continue_keeps user body d j (pw_key user.username) (check_password H S E user body d).0
          (λ k e. of_some (sym (check_password_key H S E user body d k e) ∙ key)) ne nf

  -- A user that has no hash is refused.
  unknown_refused :
      (user : AuthUser) (body : ChangePasswordBody) (d : E.Db)
      → length user.username ≤ 32
      → E.stored d (pw_key user.username) ≡ none
      → E.stored (handle_password_change H S E user body d).1 (pw_key user.username) ≡ none
  unfolding handle_password_change check_password
  unknown_refused user body d hu missing =
      elim (Option-cases (E.read d (pw_key user.username) 32)) [
        | inl e ↦ ground (arith, user_pw_key_lem B user.username (omega arith), e, missing)
        | inr (v, e) ↦ cc (missing, (L.read-stored d (pw_key user.username) v 32 e).0)
      ]

  own_account :
      (user : AuthUser) (body : ChangePasswordBody) (d : E.Db) (o : Option Account)
      → length user.username ≤ 32
      → S.sha256 body.old ≢ replicate 32 0
      → HoldsIn E d user.username o
      → HoldsIn E
          (handle_password_change H S E user body d).1
          user.username
          (with_password S body o)
  own_account user body d none hu nz (absent w) = absent (unknown_refused user body d hu w)
  own_account user body d none hu nz (deleted f p w hf lf hp lp) =
      let (refused, _) = password_change_lem B D L R user body (replicate 32 0) d hu refl w in
      rw (refused (λ e. nz (sym e))) (deleted f p w hf lf hp lp)
  own_account user body d (some a) hu nz (present b w l f p) =
      let u = user.username in
      let (refused, changed) = password_change_lem B D L R user body b.hash d hu l w in
      elim (Bool-cases (eq_bytes b.hash (S.sha256 body.old))) [
        | inl e ↦
            let (d', ran, w', _, others) = changed (eq_bytes→eq _ _ e) in
            let keeps = λ (field : Bytes) (differs : pw_key u ≢ user_key u field).
              others (user_key u field) differs (λ k. user-ne-first_login u field (sym k)) in
            rw (e, ran)
              (present _ w' (D.length-sha256 body.new) (keeps _ (pw-ne-admin u u) ∙ f)
                (keeps _ (pw-ne-ports u u) ∙ p))
        | inr e ↦ rw (e, refused (ne_of_eq_bytes _ _ e)) (present b w l f p)
      ]

  pub change-Holds :
      (user : AuthUser) (body : ChangePasswordBody) (d : E.Db) (u : Bytes) (o : Option Account)
      → IsProper S (password_change user body)
      → HoldsIn E d u o
      → HoldsIn E
          (handle_password_change H S E user body d).1
          u
          (account_after S (password_change user body) u o)
  change-Holds user body d u o p h =
      let name = user.username in
      elim (Bool-cases (eq_bytes name u)) [
        | inl e ↦
            let own = own_account user body d in
            rw e (
              subst
                (λ v.
                  HoldsIn E d v o
                  → HoldsIn E (handle_password_change H S E user body d).1 v
                      (with_password S body o))
                (eq_bytes→eq name u e) (λ hold. own o p.0 p.1 hold) h)
        | inr e ↦
            let ne = λ (k : pw_key name ≡ pw_key u).
              ne_of_eq_bytes _ _ e (user_key-injective name u _ k) in
            let keeps = λ (field : Bytes) (differs : pw_key name ≢ user_key u field).
              change_keeps_others user body d (user_key u field) p.0 differs
                (λ k. user-ne-first_login u field (sym k)) in
            rw e (
              Holds-same (keeps _ ne) (keeps _ (pw-ne-admin name u)) (keeps _ (pw-ne-ports name u))
                h)
      ]
