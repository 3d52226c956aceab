-- ===== src/System.antt =====
-- The running firmware as a whole (application/src/web/mod.rs, application/src/gpio.rs,
-- application/src/main.rs): requests, polls of the relay task and restarts, with the bootloader
-- (bootloader/src/main.rs), in any order.
pub mod Outputs
pub mod Settings
mod Examples
use cro_pduster.Prelude.{ℕ, Bool, Option, List, Bytes}
use cro_pduster.Gpio.{Gpio, start, gpio_task}
use cro_pduster.Platform.Bootloader.{Bootloader}
use cro_pduster.Boot.{main}
use cro_pduster.Bootloader
use cro_pduster.Bootloader.{Ending, load, sys_reset}
use cro_pduster.Web.Requests.{Crates, Device, Request, answer_request}

module _ (C : Crates) (parse_u8 : Bytes → Option ℕ) where
  -- A request up to the wait of a switch, with the outputs low where it restarts the chip, and the poll
  -- of the task that ends that wait.
  abbrev pub after_request : Request C → Device C → Device C
  after_request q w = (answer_request C parse_u8 (λ g. g) q w).1

  abbrev pub after_poll : Device C → Device C
  after_poll w = record w { gpio = gpio_task C.signal w.gpio }

  -- The database once the firmware was started; where the bootloader is reset, nothing runs.
  abbrev pub started : Ending → Bool → Option Bytes → ℕ → Bool → List Bool → ℕ → C.ekv.Db → C.ekv.Db
  started (load address) factory_reset_requested uid db_addr answers polls rounds d =
      (main C.heapless C.sha2 C.ekv {X = Unit {0}} factory_reset_requested uid db_addr answers polls
        rounds d).1
  started sys_reset factory_reset_requested uid db_addr answers polls rounds d = d

  -- A panic or a lost supply restarts the chip: the outputs are low, the bootloader runs, and the
  -- `main` of the firmware that it loads.
  abbrev pub after_restart :
      Bootloader C.updater → Bool → Option Bytes → ℕ → Bool → List Bool → ℕ → Device C → Device C
  after_restart L factory_reset_requested uid db_addr answers polls rounds w = record w {
    gpio = start C.signal;
    db =
        started (Bootloader.main C.updater L w.firmware).0 factory_reset_requested uid db_addr
          answers polls rounds w.db;
    firmware = (Bootloader.main C.updater L w.firmware).1;
  }

  -- `Sends` says which requests come to which states, and `Restarts` where the chip restarts, with the
  -- factory reset pin held low or not.
  pub data SystemStep (L : Bootloader C.updater) (Sends : Request C → Device C → Type 0)
      (Restarts : Bool → Device C → Type 0) : Device C → Device C → Type 0 where
    request :
        (q : Request C) (w : Device C)
        → Sends q w
        → SystemStep L Sends Restarts w (after_request q w)
    poll : (w : Device C) → SystemStep L Sends Restarts w (after_poll w)
    restart :
        (factory_reset_requested : Bool) (uid : Option Bytes) (db_addr : ℕ) (answers : Bool)
        (polls : List Bool) (rounds : ℕ) (w : Device C)
        → Restarts factory_reset_requested w
        → SystemStep L Sends Restarts w
            (after_restart L factory_reset_requested uid db_addr answers polls rounds w)

  pub data SystemReach (L : Bootloader C.updater) (Sends : Request C → Device C → Type 0)
      (Restarts : Bool → Device C → Type 0) (w : Device C) : Device C → Type 0 where
    here : SystemReach L Sends Restarts w w
    next :
        {v u : Device C}
        → SystemReach L Sends Restarts w v
        → SystemStep L Sends Restarts v u
        → SystemReach L Sends Restarts w u
