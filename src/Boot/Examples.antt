-- ===== src/Boot/Examples.antt =====
-- Runs of the start of the firmware, and the theorems about it at concrete inputs.
use cro_pduster.Prelude.{
  ◌≡◌, refl, Bool, true, false, none, some, List, [], ◌∷◌, Bytes, codes, if◌then◌else◌, arith,
}
use cro_pduster.Platform.Memory.{
  heapless, heapless-IsBounded, sha2, sha2-IsDigest, ekv, ekv-IsAtomic, ekv-IsReliable,
}
use cro_pduster.Outcome.{ok}
use cro_pduster.Transaction.Laws.{overlay}
use cro_pduster.Storage.Database.Defaults.{default_entries}
use cro_pduster.Boot.{
  after_millis, watchdog_start, spawn, sensor_task, Board, run, main_events, has_address,
  start_board, main,
}
use cro_pduster.Boot.Watchdog.{IsRunning}
use cro_pduster.Boot.Fresh.{mac_of, main_starts}

-- The watchdog runs out after eight seconds, and a task's token is given once.
late : run (watchdog_start ∷ after_millis 4000 ∷ after_millis 4000 ∷ []) (start_board []) ≡ none
unfolding run
late = refl

twice : run (spawn sensor_task ∷ spawn sensor_task ∷ []) (start_board []) ≡ none
unfolding run
twice = refl

deaf : run (main_events 4096 false [] 0) (start_board []) ≡ none
unfolding run main_events
deaf = refl

abbrev polls : List Bool
polls = false ∷ false ∷ true ∷ []

abbrev uid : Bytes
uid = 1 ∷ 2 ∷ 3 ∷ 4 ∷ 5 ∷ 6 ∷ 7 ∷ 8 ∷ []

abbrev used : ekv.Db
used = (codes "p/0/name", codes "Lamp") ∷ []

main_starts_example :
    (b : Board) × (d' : ekv.Db) × (main heapless sha2 ekv {X = Unit} true
        (some uid)
        4096
        true
        polls
        5
        used
      ≡ (ok b, d'))
    × IsRunning (mac_of sha2 uid) 4096 (has_address polls) b
    × ((j : Bytes)
        → ekv.stored d' j ≡ (
            if true
            then overlay (default_entries sha2) (λ _. none) j
            else (if (ekv.mount used).0
                then ekv.stored used j
                else overlay (default_entries sha2) (λ _. none) j)))
main_starts_example =
    main_starts heapless-IsBounded sha2-IsDigest ekv-IsAtomic ekv-IsReliable {X = Unit} true uid
      4096 polls 5 used (omega arith)
