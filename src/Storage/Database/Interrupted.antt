-- ===== src/Storage/Database/Interrupted.antt =====
-- application/src/storage.rs: a first start that stops before the last of
-- the default entries is committed.
use cro_pduster.Prelude.{
  ◌≤◌, ◌≡◌, refl, ap, sym, ◌∙◌, ◌⊎◌, inl, inr, true, false, none, Bytes, codes, length, arith,
}
use cro_pduster.Platform.{Heapless, IsBounded, Sha2, Ekv, IsAtomic}
use cro_pduster.Outcome.{Result, ok, err, panic, Action, continue}
use cro_pduster.Transaction.{Entries, transaction}
use cro_pduster.Transaction.Laws.{stored-transaction, transaction_untouched}
use cro_pduster.Storage.Keys.Laws.{pw_key, user_admin_key_lem, user_ports_key_lem, user_pw_key_lem}
use cro_pduster.Storage.PortNames.{default_names, port_entries_lem}
use cro_pduster.Storage.Database.{seed_defaults, format_or_panic, init_database}
use cro_pduster.Storage.Database.Defaults.{flag_defaults, admin_defaults}
use cro_pduster.Auth.{invalid_credentials, verify}
use cro_pduster.Auth.Verify.{verify_unknown}

-- A chain that panics does so in its first action or behind it.
abbrev PanicsIn : {S X A B : Type 0} → Result X A × S → (A → Action S X B) → S → Type 0
PanicsIn {A = A} r f s' =
    ((r.0 ≡ panic) × (r.1 ≡ s')) ⊎ ((a : A) × (r.0 ≡ ok a) × (f a r.1 ≡ (panic, s')))

continue-panics :
    {S X A B : Type 0} (r : Result X A × S) (f : A → Action S X B) (s' : S)
    → continue r.0 f r.1 ≡ (panic, s')
    → PanicsIn r f s'
continue-panics (ok a, s) f s' h = inr (a, refl, h)
continue-panics (err e, s) f s' h = cc
continue-panics (panic, s) f s' h = inl (refl, ap (λ p. p.1) h)

-- A database that mounts is taken as it is.
pub init_database_mounts :
    (H : Heapless) (S : Sha2) (E : Ekv) {X : Type 0} (d : E.Db)
    → (E.mount d).0 ≡ true
    → init_database H S E {X = X} d ≡ (ok tt, (E.mount d).1)
unfolding init_database
init_database_mounts H S E d m = rw m

module _ {E : Ekv} (L : IsAtomic E) where
  rolled_back :
      (X : Type 0) (entries : Entries) (d d' : E.Db) (j : Bytes)
      → transaction E {X = X} panic panic entries d ≡ (panic, d')
      → E.stored d' j ≡ E.stored d j
  rolled_back X entries d d' j h =
      let s = stored-transaction L {X = X} panic panic entries d j refl refl in rw h at s

  module _ {H : Heapless} (B : IsBounded H) (S : Sha2) where
    -- If the defaults are not all written, no user has a password but those that had one before.
    seed_defaults_stops :
        {X : Type 0} (d d' : E.Db) (u : Bytes)
        → seed_defaults H S E {X = X} d ≡ (panic, d')
        → E.stored d' (pw_key u) ≡ E.stored d (pw_key u)
    unfolding seed_defaults
    seed_defaults_stops {X} d d' u h =
        let j = pw_key u in
        let r1 = transaction E {X = X} panic panic flag_defaults d in
        let k1 = transaction_untouched L {X = X} panic panic flag_defaults d j refl refl refl in
        elim (continue-panics r1 _ d' h) [
          | inl (_, e) ↦ ap (λ x. E.stored x j) (sym e) ∙ k1
          | inr (a, _, h1) ↦
              let r2 = transaction E {X = X} panic panic (default_names 8 0) r1.1 in
              let k2 =
                transaction_untouched L {X = X} panic panic (default_names 8 0) r1.1 j refl refl
                  refl in
              elim (continue-panics r2 _ d' (rw (port_entries_lem B 8 0) at h1)) [
                | inl (_, e) ↦ ap (λ x. E.stored x j) (sym e) ∙ k2 ∙ k1
                | inr (b, _, h2) ↦
                    let h3 =
                      rw
                        (
                          user_admin_key_lem B (codes "admin") (omega arith),
                          user_ports_key_lem B (codes "admin") (omega arith),
                          user_pw_key_lem B (codes "admin") (omega arith),
                        )
                        at h2 in
                    rolled_back X (admin_defaults S) r2.1 d' j h3 ∙ k2 ∙ k1
              ]
        ]

    init_database_stops :
        {X : Type 0} (d d' : E.Db) (u : Bytes)
        → (E.mount d).0 ≡ false
        → (E.format (E.mount d).1).0 ≡ true
        → init_database H S E {X = X} d ≡ (panic, d')
        → E.stored d' (pw_key u) ≡ none
    unfolding init_database format_or_panic
    init_database_stops {X} d d' u m f h =
        let clean = (E.format (E.mount d).1).1 in
        let h' : seed_defaults H S E {X = X} clean ≡ (panic, d') = rw (m, f) at h in
        seed_defaults_stops {X = X} clean d' u h' ∙ L.stored-format (E.mount d).1 (pw_key u) f

    -- A first start that formats the flash and then fails before all defaults are written leaves a
    -- device that nobody can log in to: the next start takes the database that mounts as it is, and
    -- every login is refused, with the default password too. (The username has at most 56 bytes.)
    pub first_start_locks_out :
        {X : Type 0} (d d' : E.Db)
        → (E.mount d).0 ≡ false
        → (E.format (E.mount d).1).0 ≡ true
        → init_database H S E {X = X} d ≡ (panic, d')
        → (E.mount d').0 ≡ true
        → (d'' : E.Db) × (init_database H S E {X = X} d' ≡ (ok tt, d''))
          × ((u password : Bytes)
              → length u ≤ 56
              → verify H S E d'' u password ≡ err invalid_credentials)
    first_start_locks_out {X} d d' m f h m' = (
      (E.mount d').1,
      init_database_mounts H S E {X = X} d' m',
      λ u password hu.
          verify_unknown B S E L (E.mount d').1 u password hu
            (L.stored-mount d' (pw_key u) m' ∙ init_database_stops {X = X} d d' u m f h),
    )
