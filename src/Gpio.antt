-- ===== src/Gpio.antt =====
-- application/src/gpio.rs: the task that drives the eight relay outputs, its command signal and the
-- shared states. A pin's level is the one that the task asked for last.
pub mod Task
use cro_pduster.Prelude.{
  ℕ, Bool, true, false, not, Option, none, some, List, get_or, set, leb, replicate, if◌then◌else◌,
}
use cro_pduster.Platform.{Signal}

pub data GpioCommand : Type 0 where
  toggle : ℕ → GpioCommand
  set_to : ℕ → Bool → GpioCommand

module _ (G : Signal GpioCommand) where
  -- `GPIO_SIGNAL`, `GPIO_STATES`, and the levels of the output pins.
  pub record Gpio : Type 0 where
    pub slot : G.Slot
    pub states : List Bool
    pub pins : List Bool

  -- Before the first command: the statics, and the outputs that `main` opens at `Level::Low`.
  unfoldable pub start : Gpio
  start = record { slot = G.new; states = replicate 8 false; pins = replicate 8 false }

  abbrev pub pin_index : GpioCommand → ℕ
  pin_index (toggle p) = p
  pin_index (set_to p _) = p

  abbrev pub new_state : GpioCommand → List Bool → Bool
  new_state (toggle p) states = not (get_or states p false)
  new_state (set_to p s) states = s

  -- One round of the task, once `wait` has returned a command.
  unfoldable pub run_command : GpioCommand → Gpio → Gpio
  run_command cmd g =
      if leb 8 (pin_index cmd)
      then g
      else (let level = new_state cmd g.states in
          record g {
            states = set g.states (pin_index cmd) level;
            pins = set g.pins (pin_index cmd) level;
          })

  abbrev pub resume : Option GpioCommand → G.Slot → Gpio → Gpio
  resume none slot g = record g { slot = slot }
  resume (some cmd) slot g = run_command cmd (record g { slot = slot })

  -- The task when the executor polls it: without a command it goes on waiting.
  unfoldable pub gpio_task : Gpio → Gpio
  unfolding run_command
  gpio_task g = let (taken, slot) = G.try_take g.slot in resume taken slot g

  unfoldable pub signal : GpioCommand → Gpio → Gpio
  signal cmd g = record g { slot = G.signal cmd g.slot }
