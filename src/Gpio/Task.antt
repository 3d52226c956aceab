-- ===== src/Gpio/Task.antt =====
-- What the task makes of the commands that are signalled to it.
use cro_pduster.Prelude.{
  ℕ, ◌<◌, ◌≡◌, ◌≢◌, some, length, get_elem?, get_elem?-set_ne, get_elem?-set_self, length-set,
  arith,
}
use cro_pduster.Platform.{Signal, IsLatest}
use cro_pduster.Gpio.{GpioCommand, Gpio, pin_index, new_state, run_command, gpio_task, signal}

module _ {G : Signal GpioCommand} (L : IsLatest G) where
  -- A command that is signalled is run when the task is polled, and the signal is then empty.
  pub gpio_task-signal :
      (cmd : GpioCommand) (g : Gpio G)
      → gpio_task G (signal G cmd g) ≡ run_command G cmd (record g { slot = G.new })
  unfolding gpio_task signal
  gpio_task-signal cmd g = rw (L.take-signal cmd g.slot)

  -- Of two commands that are signalled before the task is polled only the second is run: the
  -- first is lost, whatever it was.
  signal_overwrites :
      (first second : GpioCommand) (g : Gpio G)
      → gpio_task G (signal G second (signal G first g)) ≡ gpio_task G (signal G second g)
  unfolding gpio_task signal
  signal_overwrites first second g =
      rw (L.take-signal second g.slot, L.take-signal second (G.signal first g.slot))

-- The states and the levels of the pins agree, for eight outputs.
pub record IsSynced {G : Signal GpioCommand} (g : Gpio G) : Type 0 where
  pub states_count : length g.states ≡ 8
  pub driven : g.pins ≡ g.states

module _ {G : Signal GpioCommand} where
  pub run_command-IsSynced :
      (cmd : GpioCommand) (g : Gpio G) → IsSynced g → IsSynced (run_command G cmd g)
  unfolding run_command
  run_command-IsSynced cmd g h =
      ground (arith, length-set g.states (pin_index G cmd) (new_state G cmd g.states))

  -- A command sets the state of its output and leaves the seven others alone.
  pub run_command_lem :
      (cmd : GpioCommand) (g : Gpio G) (j : ℕ)
      → IsSynced g
      → pin_index G cmd < 8
      → (get_elem? (run_command G cmd g).states (pin_index G cmd) ≡ some (new_state G cmd g.states))
        × (pin_index G cmd ≢ j → get_elem? (run_command G cmd g).states j ≡ get_elem? g.states j)
  unfolding run_command
  run_command_lem cmd g j h lt = (
    ground (arith, get_elem?-set_self g.states (pin_index G cmd) (new_state G cmd g.states)),
    λ ne. ground (
      arith,
      get_elem?-set_ne g.states {i = pin_index G cmd} {j = j} (new_state G cmd g.states) ne,
    ),
  )
