-- ===== src/Boot/Recovery.antt =====
-- application/src/main.rs and application/src/web/mod.rs: the start that follows a request that
-- panics, since a panic resets the chip.
use cro_pduster.Prelude.{ℕ, ◌<◌, ◌≡◌, ◌∙◌, false, true, Option, some, List, Bool, Bytes}
use cro_pduster.Platform.{IsBounded, IsDigest, IsAtomic, IsReliable}
use cro_pduster.Outcome.{ok}
use cro_pduster.Gpio.{Gpio}
use cro_pduster.Boot.{Board, has_address, main}
use cro_pduster.Boot.Watchdog.{IsRunning}
use cro_pduster.Boot.Fresh.{mac_of, main_starts}
use cro_pduster.Web.Requests.{Crates, Device, Request, Reply, handle_request}
use cro_pduster.Web.Requests.Panics.{panic_keeps}

module _ (C : Crates) where
  -- On a reliable flash no request can lock the device out by a panic: whatever request panics, the
  -- firmware starts again, is running, and every key has the value that it had before the request.
  -- (The factory reset pin is left high, the database mounts, the identifier can be read, the Ethernet
  -- chip answers, and the database does not lie at address 0.)
  pub panic_recovers :
      {X : Type 0} (B : IsBounded C.heapless) (D : IsDigest C.sha2) (L : IsAtomic C.ekv)
      (R : IsReliable C.ekv) (parse_u8 : Bytes → Option ℕ) (wait : Gpio C.signal → Gpio C.signal)
      (q : Request C) (w : Device C) (uid : Bytes) (db_addr : ℕ) (polls : List Bool) (rounds : ℕ)
      → 0 < db_addr
      → (C.ekv.mount (handle_request C parse_u8 wait q w).1.db).0 ≡ true
      → (handle_request C parse_u8 wait q w).0 ≡ Reply.panics
      → (b : Board) × (d' : C.ekv.Db) × (main C.heapless C.sha2 C.ekv {X = X} false
            (some uid)
            db_addr
            true
            polls
            rounds
            (handle_request C parse_u8 wait q w).1.db
          ≡ (ok b, d'))
        × IsRunning (mac_of C.sha2 uid) db_addr (has_address polls) b
        × ((j : Bytes) → C.ekv.stored d' j ≡ C.ekv.stored w.db j)
  panic_recovers {X} B D L R parse_u8 wait q w uid db_addr polls rounds h mounts panics =
      let left = (handle_request C parse_u8 wait q w).1.db in
      let (b, d', ran, running, s) =
        main_starts B D L R {X = X} false uid db_addr polls rounds left h in
      (
        b,
        d',
        ran,
        running,
        λ j. rw mounts at (s j) ∙ panic_keeps C B D L R parse_u8 wait q w panics j,
      )
