-- ===== src/Web/Admin/Accounts/Calls.antt =====
-- Each administrator's request does to the entries of every user what is promised for the account.
use cro_pduster.Prelude.{
  ℕ, ◌≤◌, ◌≡◌, ◌≢◌, refl, ap, sym, ◌∙◌, true, false, Option, some, [], ◌∷◌, Bytes, codes, length,
  replicate, eq_bytes, eq_bytes→eq, eq_bytes_ne, eq_bytes_refl, Bool-cases, inl, inr, arith,
}
use cro_pduster.Platform.{Heapless, IsBounded, Sha2, IsDigest, Ekv, IsAtomic, IsReliable}
use cro_pduster.Outcome.{err}
use cro_pduster.Transaction.Laws.{overlay, transaction_stores}
use cro_pduster.Storage.Keys.Laws.{
  admin_key, ports_key, pw_key, user_key-injective, pw-ne-ports, ports-ne-admin,
}
use cro_pduster.Storage.UserEntries.{
  length-user_key, user_entries, overlay-pw, overlay-ports, overlay-admin,
}
use cro_pduster.Web.Admin.{CreateUserBody, SetPortsBody, ApiError, write_error, commit_error}
use cro_pduster.Web.Admin.Users.{flag_of, create_user_stores}
use cro_pduster.Web.Admin.Deletion.{delete_user_stores}
use cro_pduster.Web.Admin.Reset.{defaults_no_user, factory_reset_login}
use cro_pduster.Web.Admin.Interleaving.Writes.{ports_written, port_name_keeps}
use cro_pduster.Web.Admin.Interleaving.{
  Call, create_user, set_user_ports, delete_user, port_name_set, factory_reset, call_db,
}
use cro_pduster.Web.Admin.Accounts.{
  Account, Holds, absent, deleted, present, account_after, admin_call, IsProper, with_ports,
}
use cro_pduster.Web.Admin.Accounts.Entries.{Holds-same, entries_elsewhere}

-- What is stored for a user stands for the account.
abbrev pub HoldsIn : (E : Ekv) → E.Db → Bytes → Option Account → Type 0
HoldsIn E d u o =
    Holds (E.stored d (pw_key u)) (E.stored d (admin_key u)) (E.stored d (ports_key u)) o

pub ne_of_eq_bytes : (a b : Bytes) → eq_bytes a b ≡ false → a ≢ b
ne_of_eq_bytes a b h e = ground (arith, eq_bytes_refl a)

module _ {H : Heapless} {S : Sha2} {E : Ekv} (B : IsBounded H) (D : IsDigest S) (L : IsAtomic E)
    (R : IsReliable E) (u : Bytes) where
  -- A database with three entries of one user more than another.
  elsewhere :
      (name flag ports pw : Bytes) (d d' : E.Db) (o : Option Account)
      → name ≢ u
      → ((j : Bytes) → E.stored d' j ≡ overlay (user_entries name flag ports pw) (E.stored d) j)
      → HoldsIn E d u o
      → HoldsIn E d' u o
  elsewhere name flag ports pw d d' o ne s h =
      let (w, f, p) = entries_elsewhere name u ne flag ports pw (E.stored d) in
      Holds-same (s (pw_key u) ∙ w) (s (admin_key u) ∙ f) (s (ports_key u) ∙ p) h

  at_home :
      (name flag ports pw : Bytes) (d d' : E.Db)
      → eq_bytes name u ≡ true
      → ((j : Bytes) → E.stored d' j ≡ overlay (user_entries name flag ports pw) (E.stored d) j)
      → (E.stored d' (pw_key u) ≡ some pw)
        × (E.stored d' (admin_key u) ≡ some flag)
        × (E.stored d' (ports_key u) ≡ some ports)
  at_home name flag ports pw d d' e s =
      let same = eq_bytes→eq name u e in
      (
        s (pw_key u) ∙ rw same (overlay-pw u flag ports pw (E.stored d)),
        s (admin_key u) ∙ rw same (overlay-admin u flag ports pw (E.stored d)),
        s (ports_key u) ∙ rw same (overlay-ports u flag ports pw (E.stored d)),
      )

  created :
      (body : CreateUserBody) (d : E.Db) (o : Option Account)
      → length body.username ≤ 32
      → HoldsIn E d u o
      → HoldsIn E
          (call_db H S E (create_user body) d)
          u
          (account_after S (admin_call (create_user body)) u o)
  created body d o hu h =
      let (d', ran, s) = create_user_stores B D L R body d hu in
      let name = body.username in
      let flag = flag_of body.admin in
      let pw = S.sha256 body.password in
      rw (call_db, ran)
        (elim (Bool-cases (eq_bytes name u)) [
          | inl e ↦
              let (w, f, p) = at_home name flag (body.ports ∷ []) pw d d' e s in
              rw e (present _ w (D.length-sha256 body.password) f p)
          | inr e ↦
              rw e (elsewhere name flag (body.ports ∷ []) pw d d' o (ne_of_eq_bytes _ _ e) s h)
        ])

  gone :
      (name : Bytes) (d : E.Db) (o : Option Account)
      → length name ≤ 32
      → HoldsIn E d u o
      → HoldsIn E
          (call_db H S E (delete_user name) d)
          u
          (account_after S (admin_call (delete_user name)) u o)
  gone name d o hu h =
      let (d', ran, s) = delete_user_stores B D L R name d hu in
      let zeros : Bytes = replicate 32 0 in
      rw (call_db, ran)
        (elim (Bool-cases (eq_bytes name u)) [
          | inl e ↦
              let (w, f, p) = at_home name (codes "0") (0 ∷ []) zeros d d' e s in
              rw e (deleted (codes "0") (0 ∷ []) w f (omega arith) p (omega arith))
          | inr e ↦
              rw e (elsewhere name (codes "0") (0 ∷ []) zeros d d' o (ne_of_eq_bytes _ _ e) s h)
        ])

  -- With other ports the account has these ports, if there is one.
  ports_changed :
      (ports : ℕ) (d d' : E.Db) (o : Option Account)
      → E.stored d' (pw_key u) ≡ E.stored d (pw_key u)
      → E.stored d' (admin_key u) ≡ E.stored d (admin_key u)
      → E.stored d' (ports_key u) ≡ some (ports ∷ [])
      → HoldsIn E d u o
      → HoldsIn E d' u (with_ports S ports o)
  ports_changed ports d d' o w f p (absent hw) = absent (w ∙ hw)
  ports_changed ports d d' o w f p (deleted g q hw hf lf hp lp) =
      deleted g (ports ∷ []) (w ∙ hw) (f ∙ hf) lf p (omega arith)
  ports_changed ports d d' o w f p (present a hw l hf hp) = present _ (w ∙ hw) l (f ∙ hf) p

  ports_set :
      (name : Bytes) (body : SetPortsBody) (d : E.Db) (o : Option Account)
      → length name ≤ 32
      → HoldsIn E d u o
      → HoldsIn E
          (call_db H S E (set_user_ports name body) d)
          u
          (account_after S (admin_call (set_user_ports name body)) u o)
  ports_set name body d o hu h =
      let (d', ran, s) =
        transaction_stores L R {X = ApiError} (err write_error) (err commit_error)
          ((ports_key name, body.ports ∷ []) ∷ []) d refl refl
          (tt, omega (arith, length-user_key name (codes "/ports")), omega arith, tt) in
      let done : call_db H S E (set_user_ports name body) d ≡ d' =
        ap (λ r. r.1) (ports_written S B L u name body d hu) ∙ ground (arith, ran) in
      let w = s (pw_key u) ∙ rw (eq_bytes_ne _ _ (λ e. pw-ne-ports u name (sym e))) in
      let f = s (admin_key u) ∙ rw (eq_bytes_ne _ _ (ports-ne-admin name u)) in
      rw done (elim (Bool-cases (eq_bytes name u)) [
        | inl e ↦
            let same = eq_bytes→eq name u e in
            rw e (
              ports_changed body.ports d d' o w f
                (s (ports_key u) ∙ rw (same, eq_bytes_refl (ports_key u))) h)
        | inr e ↦
            let ne = λ (k : ports_key name ≡ ports_key u).
              ne_of_eq_bytes _ _ e (user_key-injective name u _ k) in
            rw e (Holds-same w f (s (ports_key u) ∙ rw (eq_bytes_ne _ _ ne)) h)
      ])

  reset :
      (d : E.Db) (o : Option Account)
      → HoldsIn E (call_db H S E factory_reset d) u (account_after S (admin_call factory_reset) u o)
  reset d o =
      let (d', ran, s, _, _) = factory_reset_login B D L R {X = Unit {0}} d in
      rw (call_db, ran)
        (elim (Bool-cases (eq_bytes (codes "admin") u)) [
          | inl e ↦
              let same = eq_bytes→eq (codes "admin") u e in
              rw e (
                present _ (s (pw_key u) ∙ rw (← same)) (D.length-sha256 (codes "admin"))
                  (s (admin_key u) ∙ rw (← same)) (s (ports_key u) ∙ rw (← same)))
          | inr e ↦
              let ne = λ (k : u ≡ codes "admin"). ne_of_eq_bytes _ _ e (sym k) in
              rw e (absent (s (pw_key u) ∙ defaults_no_user S u ne))
        ])

  pub call-Holds :
      (c : Call) (d : E.Db) (o : Option Account)
      → IsProper S (admin_call c)
      → HoldsIn E d u o
      → HoldsIn E (call_db H S E c d) u (account_after S (admin_call c) u o)
  call-Holds (create_user body) d o p h = created body d o p h
  call-Holds (set_user_ports name body) d o p h = ports_set name body d o p h
  call-Holds (delete_user name) d o p h = gone name d o p h
  call-Holds (port_name_set port body) d o p h =
      let keeps = port_name_keeps S B L u port body d in
      Holds-same (keeps (codes "/pw")) (keeps (codes "/admin")) (keeps (codes "/ports")) h
  call-Holds factory_reset d o p h = reset d o
