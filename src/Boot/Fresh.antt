-- ===== src/Boot/Fresh.antt =====
-- application/src/main.rs: what is stored once the firmware has started.
use cro_pduster.Prelude.{
  ℕ, ◌≤◌, ◌<◌, ◌≡◌, refl, ◌∙◌, Bool, true, false, none, some, List, [], ◌∷◌, ◌++◌, Bytes, codes,
  length, get_or, take, arith, if◌then◌else◌,
}
use cro_pduster.Platform.{Heapless, IsBounded, Sha2, IsDigest, Ekv, IsAtomic, IsReliable}
use cro_pduster.Outcome.{ok}
use cro_pduster.Transaction.Laws.{overlay, overlay-ext}
use cro_pduster.Storage.Database.Defaults.{
  default_entries, seed_defaults_stores, init_database_stores,
}
use cro_pduster.Boot.{mac_address_from_flash, reset_database, Board, has_address, main}
use cro_pduster.Boot.Watchdog.{IsRunning, main_events-IsRunning}

-- A locally administered address, from the chip's identifier.
abbrev pub mac_of : Sha2 → Bytes → Bytes
mac_of S uid = 0x02 ∷ take 5 (S.sha256 (codes "CroPDUster MAC" ++ uid))

first_five :
    (xs : Bytes)
    → 5 ≤ length xs
    → get_or xs 0 0 ∷ get_or xs 1 0 ∷ get_or xs 2 0 ∷ get_or xs 3 0 ∷ get_or xs 4 0 ∷ [] ≡ take 5 xs
first_five (a ∷ b ∷ c ∷ d ∷ e ∷ xs) h = refl
first_five [] h = absurd (omega arith)
first_five (a ∷ []) h = absurd (omega arith)
first_five (a ∷ b ∷ []) h = absurd (omega arith)
first_five (a ∷ b ∷ c ∷ []) h = absurd (omega arith)
first_five (a ∷ b ∷ c ∷ d ∷ []) h = absurd (omega arith)

mac_address_from_flash_lem :
    {S : Sha2}
    → IsDigest S
    → {X : Type 0} (uid : Bytes) → mac_address_from_flash {X = X} S (some uid) ≡ ok (mac_of S uid)
unfolding mac_address_from_flash
mac_address_from_flash_lem {S} D uid =
    let m = codes "CroPDUster MAC" ++ uid in
    rw (first_five (S.sha256 m) (omega (arith, D.length-sha256 m)))

module _ {H : Heapless} {S : Sha2} {E : Ekv} where
  module _ (B : IsBounded H) (D : IsDigest S) (L : IsAtomic E) (R : IsReliable E) where
    -- On a reliable flash `reset_database` leaves the default entries alone.
    reset_database_stores :
        {X : Type 0} (d : E.Db)
        → (d' : E.Db) × (reset_database H S E {X = X} d ≡ (ok tt, d'))
          × ((j : Bytes) → E.stored d' j ≡ overlay (default_entries S) (λ _. none) j)
    unfolding reset_database
    reset_database_stores {X} d =
        let (d', ran, s) = seed_defaults_stores B D L R {X = X} (E.format d).1 in
        (
          d',
          ran,
          λ j.
              s j
              ∙ overlay-ext (default_entries S) _ _ j (λ i. L.stored-format d i (R.format_ok d)),
        )

    -- On a reliable flash the firmware starts from any state of the database, and is running however
    -- long it waits for an address, with the watchdog fed in time and no task short of a place in its
    -- pool: with the address `02` and five bytes of the digest of the chip's identifier, and with a
    -- database that holds the default entries alone if the factory reset pin was held low or the flash
    -- did not mount, and what it held before if neither was so. (The identifier can be read, the
    -- Ethernet chip answers, and the database does not lie at address 0.)
    pub main_starts :
        {X : Type 0} (reset : Bool) (uid : Bytes) (db_addr : ℕ) (polls : List Bool) (rounds : ℕ)
        (d : E.Db)
        → 0 < db_addr
        → (b : Board) × (d' : E.Db) × (main H S E {X = X} reset
              (some uid)
              db_addr
              true
              polls
              rounds
              d
            ≡ (ok b, d'))
          × IsRunning (mac_of S uid) db_addr (has_address polls) b
          × ((j : Bytes)
              → E.stored d' j ≡ (
                  if reset
                  then overlay (default_entries S) (λ _. none) j
                  else (if (E.mount d).0
                      then E.stored d j
                      else overlay (default_entries S) (λ _. none) j)))
    unfolding main
    main_starts {X} true uid db_addr polls rounds d h =
        let (b, ran, running) = main_events-IsRunning (mac_of S uid) db_addr polls rounds h in
        let (d1, init, s1) = init_database_stores B D L R {X = X} d in
        let (d2, cleared, s2) = reset_database_stores {X = X} d1 in
        (b, d2, rw (mac_address_from_flash_lem D {X = X} uid, init, cleared, ran), running, s2)
    main_starts {X} false uid db_addr polls rounds d h =
        let (b, ran, running) = main_events-IsRunning (mac_of S uid) db_addr polls rounds h in
        let (d1, init, s1) = init_database_stores B D L R {X = X} d in
        (b, d1, rw (mac_address_from_flash_lem D {X = X} uid, init, ran), running, s1)
