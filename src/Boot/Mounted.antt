-- ===== src/Boot/Mounted.antt =====
-- application/src/main.rs: a start on a database that mounts leaves what is stored alone, however it
-- ends.
use cro_pduster.Prelude.{ℕ, ◌≡◌, refl, true, false, Bool, Option, none, some, List, Bytes}
use cro_pduster.Platform.{Heapless, Sha2, Ekv, IsAtomic}
use cro_pduster.Storage.Database.Interrupted.{init_database_mounts}
use cro_pduster.Boot.{mac_address_from_flash, main}

module _ (H : Heapless) (S : Sha2) {E : Ekv} (L : IsAtomic E) where
  pub main_keeps :
      (X : Type 0) (uid : Option Bytes) (db_addr : ℕ) (answers : Bool) (polls : List Bool)
      (rounds : ℕ) (d : E.Db) (j : Bytes)
      → (E.mount d).0 ≡ true
      → E.stored (main H S E {X = X} false uid db_addr answers polls rounds d).1 j ≡ E.stored d j
  unfolding main mac_address_from_flash
  main_keeps X none db_addr answers polls rounds d j m = refl
  main_keeps X (some uid) db_addr answers polls rounds d j m =
      rw (init_database_mounts H S E {X = X} d m) (L.stored-mount d j m)
