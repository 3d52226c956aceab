-- ===== src/Web/Gpio/Examples.antt =====
-- Runs of the output handlers, and the theorems about them at concrete inputs.
use cro_pduster.Prelude.{
  ℕ, ◌≡◌, refl, true, false, not, some, [], ◌∷◌, codes, get_or, get_elem?, arith,
}
use cro_pduster.Platform.{Signal}
use cro_pduster.Platform.Memory.{signal as memory_signal, signal-IsLatest}
use cro_pduster.Auth.{AuthUser}
use cro_pduster.Gpio.{GpioCommand, toggle, Gpio, start, gpio_task, signal, run_command}
use cro_pduster.Gpio.Task.{IsSynced}
use cro_pduster.Web.Gpio.{SetBody, is_allowed, handle_gpio_toggle, handle_gpio_set}
use cro_pduster.Web.Gpio.Access.{Served, switch-Served}
use cro_pduster.Web.Gpio.Steps.{Reach, here, next, request_toggle, poll, output_protected}

abbrev slots : Signal GpioCommand
slots = memory_signal GpioCommand

-- May switch outputs 0 and 2.
abbrev bob : AuthUser
bob = record { username = codes "bob"; is_admin = false; allowed_ports = 5 }

abbrev on : SetBody
on = record { state = true }

abbrev begin : Gpio slots
begin = start slots

begin-IsSynced : IsSynced begin
unfolding start
begin-IsSynced = record { states_count = refl; driven = refl }

switch-Served_example :
    Served 2
      (not (get_or begin.states 2 false))
      begin
      (handle_gpio_toggle slots (gpio_task slots) 2 bob begin)
    × Served 2 on.state begin (handle_gpio_set slots (gpio_task slots) 2 bob on begin)
unfolding is_allowed
switch-Served_example =
    switch-Served (signal-IsLatest GpioCommand) begin 2 bob on begin-IsSynced (omega arith) refl

-- The permission that is shown for output 8, which does not exist, is that of output 0.
phantom_is_allowed : is_allowed bob.allowed_ports 8 ≡ true
unfolding is_allowed
phantom_is_allowed = refl

-- Two toggles before the task runs: the output changes once.
toggled_once :
    (gpio_task slots (signal slots (toggle 2) (signal slots (toggle 2) begin))).states
    ≡ false ∷ false ∷ true ∷ false ∷ false ∷ false ∷ false ∷ false ∷ []
unfolding gpio_task signal run_command start
toggled_once = refl

-- Requests come from `bob` alone.
abbrev FromBob : ℕ → AuthUser → Type 0
FromBob pin user = user ≡ bob

abbrev after_toggle : Gpio slots
after_toggle = (handle_gpio_toggle slots (λ h. h) 2 bob begin).1

bob_toggles : Reach slots FromBob begin (gpio_task slots after_toggle)
bob_toggles = next (next here (request_toggle 2 bob begin refl)) (poll after_toggle)

bob_may_not :
    (pin : ℕ) (user : AuthUser)
    → FromBob pin user
    → pin ≡ 1
    → is_allowed user.allowed_ports 1 ≡ false
unfolding is_allowed
bob_may_not pin user e at = rw e

output_protected_example :
    (get_elem? (gpio_task slots after_toggle).states 1 ≡ some false)
    × (get_elem? (gpio_task slots after_toggle).pins 1 ≡ some false)
    × IsSynced (gpio_task slots after_toggle)
unfolding start
output_protected_example =
    output_protected (signal-IsLatest GpioCommand) 1 false bob_may_not bob_toggles begin-IsSynced
      refl refl
