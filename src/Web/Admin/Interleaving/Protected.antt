-- ===== src/Web/Admin/Interleaving/Protected.antt =====
-- application/src/web/admin.rs: the password of a user, whatever requests come and interleave.
use cro_pduster.Prelude.{
  ◌≤◌, ◌≡◌, ◌≢◌, ap, sym, ◌∙◌, of_some, some, List, [], ◌∷◌, ◌++◌, Bytes, length, arith,
}
use cro_pduster.Platform.{Heapless, IsBounded, Sha2, Ekv, IsAtomic}
use cro_pduster.Outcome.{ok}
use cro_pduster.Storage.Keys.Laws.{pw_key, user_pw_key_lem, user_key-injective}
use cro_pduster.Auth.{AuthUser}
use cro_pduster.Web.Admin.{ChangePasswordBody, check_password}
use cro_pduster.Web.Admin.Checks.{check_password_passes}
use cro_pduster.Web.Admin.Interleaving.Writes.{IsApart, call_keeps, change_keeps}
use cro_pduster.Web.Admin.Interleaving.{
  Call, Change, Server, Step, check, store, lose, call, Reach, here, next,
}

abbrev AreForOthers : Bytes → List Change → Type 0
AreForOthers j [] = Unit
AreForOthers j (c ∷ cs) = (c.pw_key ≢ j) × AreForOthers j cs

others-remove :
    (j : Bytes) (c : Change) (before after : List Change)
    → AreForOthers j (before ++ (c ∷ after))
    → (c.pw_key ≢ j) × AreForOthers j (before ++ after)
others-remove j c [] after h = h
others-remove j c (b ∷ before) after h =
    let (ne, rest) = others-remove j c before after h.1 in (ne, (h.0, rest))

module _ {H : Heapless} (S : Sha2) {E : Ekv} (B : IsBounded H) (L : IsAtomic E)
    (u hash : Bytes) where
  record IsGuarded (s : Server E) : Type 0 where
    holds : E.stored s.db (pw_key u) ≡ some hash
    others : AreForOthers (pw_key u) s.waiting

  module _ {Asks : Call → Type 0} {Changes : AuthUser → ChangePasswordBody → Type 0}
      (apart : (c : Call) → Asks c → IsApart u c)
      (ignorant : (user : AuthUser) (body : ChangePasswordBody)
        → Changes user body
        → (length user.username ≤ 32) × (user.username ≡ u → S.sha256 body.old ≢ hash)) where
    checked_for_other :
        (user : AuthUser) (body : ChangePasswordBody) (k : Bytes) (d : E.Db)
        → Changes user body
        → check_password H S E user body d ≡ (ok k, d)
        → E.stored d (pw_key u) ≡ some hash
        → k ≢ pw_key u
    checked_for_other user body k d asked passed there same =
        let (short, wrong) = ignorant user body asked in
        let (built, read) = check_password_passes H S E user body d k passed in
        let key = user_pw_key_lem B user.username (omega arith) in
        let stored = (L.read-stored d k (S.sha256 body.old) 32 read).0 in
        wrong (user_key-injective user.username u _ (of_some (sym key ∙ built) ∙ same))
          (of_some (sym stored ∙ ap (E.stored d) same ∙ there))

    Step-IsGuarded : {s t : Server E} → Step H S E Asks Changes s t → IsGuarded s → IsGuarded t
    Step-IsGuarded (check user body k s asked passed) g = record {
      holds = g.holds;
      others = (checked_for_other user body k s.db asked passed g.holds, g.others);
    }
    Step-IsGuarded (store c before after s e) g =
        let (ne, rest) = others-remove (pw_key u) c before after (rw e at g.others) in
        record { holds = change_keeps S B L u c s.db ne ∙ g.holds; others = rest }
    Step-IsGuarded (lose c before after s e) g = record {
      holds = g.holds;
      others = (others-remove (pw_key u) c before after (rw e at g.others)).1;
    }
    Step-IsGuarded (call c s asked) g = record {
      holds = call_keeps S B L u c s.db (apart c asked) ∙ g.holds;
      others = g.others;
    }

    reach-IsGuarded : {s t : Server E} → Reach H S E Asks Changes s t → IsGuarded s → IsGuarded t
    reach-IsGuarded here g = g
    reach-IsGuarded (next r st) g = Step-IsGuarded st (reach-IsGuarded r g)

    -- Whatever requests come and however they interleave: a user's stored hash stays, if each change
    -- of that user's password comes with an old password of another hash, and no administrator
    -- creates or deletes a user of that name or resets the device. (At the start no change waits;
    -- names have at most 32 bytes; the key-value store is atomic.)
    pub password_protected :
        {s t : Server E}
        → Reach H S E Asks Changes s t
        → s.waiting ≡ []
        → E.stored s.db (pw_key u) ≡ some hash
        → E.stored t.db (pw_key u) ≡ some hash
    password_protected r idle there =
        (reach-IsGuarded r (record { holds = there; others = rw idle tt })).holds
