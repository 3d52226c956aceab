-- ===== src/Storage/Database/Defaults.antt =====
-- The database after `seed_defaults` and `init_database`.
use cro_pduster.Prelude.{
  ◌≡◌, refl, ◌∙◌, none, [], ◌∷◌, ◌++◌, Bool-cases, inl, inr, Bytes, codes, arith, if◌then◌else◌,
}
use cro_pduster.Platform.{Heapless, IsBounded, Sha2, IsDigest, Ekv, IsAtomic, IsReliable}
use cro_pduster.Outcome.{ok, panic}
use cro_pduster.Transaction.{Entries}
use cro_pduster.Transaction.Laws.{overlay, overlay-ext, transaction_stores}
use cro_pduster.Storage.Keys.Laws.{
  admin_key, ports_key, pw_key, user_admin_key_lem, user_ports_key_lem, user_pw_key_lem,
}
use cro_pduster.Storage.PortNames.{default_names, port_entries_lem}
use cro_pduster.Storage.Database.{hash_password, seed_defaults, init_database}

abbrev pub flag_defaults : Entries
flag_defaults = (codes "admin/first_login", codes "1") ∷ (codes "init", codes "1") ∷ []

abbrev pub admin_defaults : Sha2 → Entries
admin_defaults S =
    (admin_key (codes "admin"), codes "1")
    ∷ (ports_key (codes "admin"), 0xFF ∷ [])
    ∷ (pw_key (codes "admin"), S.sha256 (codes "admin"))
    ∷ []

-- What a fresh database stores.
abbrev pub default_entries : Sha2 → Entries
default_entries S = flag_defaults ++ (default_names 8 0 ++ admin_defaults S)

module _ {H : Heapless} {S : Sha2} {E : Ekv} where
  module _ (B : IsBounded H) (D : IsDigest S) (L : IsAtomic E) (R : IsReliable E) where
    -- On a reliable flash `seed_defaults` ends well from any database: it writes the default
    -- entries and leaves every other key as it was.
    pub seed_defaults_stores :
        {X : Type 0} (d : E.Db)
        → (d' : E.Db) × (seed_defaults H S E {X = X} d ≡ (ok tt, d'))
          × ((j : Bytes) → E.stored d' j ≡ overlay (default_entries S) (E.stored d) j)
    unfolding seed_defaults hash_password
    seed_defaults_stores {X} d =
        let (d1, e1, s1) =
          transaction_stores L R {X = X} panic panic flag_defaults d refl refl (ground arith) in
        let (d2, e2, s2) =
          transaction_stores L R {X = X} panic panic (default_names 8 0) d1 refl refl
            (ground arith) in
        let (d3, e3, s3) =
          transaction_stores L R {X = X} panic panic (admin_defaults S) d2 refl refl
            (ground (arith, D.length-sha256 (codes "admin"))) in
        (
          d3,
          ground (
            arith,
            e1,
            e2,
            e3,
            port_entries_lem B 8 0,
            user_admin_key_lem B (codes "admin") (omega arith),
            user_ports_key_lem B (codes "admin") (omega arith),
            user_pw_key_lem B (codes "admin") (omega arith),
          ),
          λ j.
              s3 j
              ∙ overlay-ext (admin_defaults S) _ _ j
                  (λ i. s2 i ∙ overlay-ext (default_names 8 0) _ _ i s1)
              ∙ refl,
        )

    -- On a reliable flash `init_database` ends well: a database that mounts is kept as it is, and
    -- one that does not is replaced by the default entries alone.
    pub init_database_stores :
        {X : Type 0} (d : E.Db)
        → (d' : E.Db) × (init_database H S E {X = X} d ≡ (ok tt, d'))
          × ((j : Bytes)
              → E.stored d' j ≡ (
                  if (E.mount d).0
                  then E.stored d j
                  else overlay (default_entries S) (λ _. none) j))
    unfolding init_database
    init_database_stores {X} d = elim (Bool-cases (E.mount d).0) [
      | inl e ↦ ((E.mount d).1, rw e, λ j. rw e (L.stored-mount d j e))
      | inr e ↦
          let clean = (E.format (E.mount d).1).1 in
          let (d', ran, s) = seed_defaults_stores {X = X} clean in
          let formatted = R.format_ok (E.mount d).1 in
          (
            d',
            rw (e, formatted) ran,
            λ j. rw e (
                s j
                ∙ overlay-ext (default_entries S) _ _ j
                    (λ i. L.stored-format (E.mount d).1 i formatted)),
          )
    ]
