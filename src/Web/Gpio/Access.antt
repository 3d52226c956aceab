-- ===== src/Web/Gpio/Access.antt =====
-- What a request does to the outputs.
use cro_pduster.Prelude.{
  ℕ, zero, suc, ◌%◌, ◌≤◌, ◌<◌, ◌≡◌, ◌≢◌, ap, Bool, true, false, not, some, [], ◌∷◌, List, Bytes,
  get_or, get_elem?, leb, arith,
}
use cro_pduster.Platform.{Heapless, IsBounded, Ekv, Signal, IsLatest}
use cro_pduster.Outcome.{ok}
use cro_pduster.Storage.Keys.Laws.{name_key, port_name_key_lem}
use cro_pduster.Auth.{AuthUser}
use cro_pduster.Gpio.{GpioCommand, toggle, set_to, Gpio, pin_index, new_state, gpio_task, signal}
use cro_pduster.Gpio.Task.{IsSynced, gpio_task-signal, run_command-IsSynced, run_command_lem}
use cro_pduster.Web.Gpio.{
  GpioToggleResponse, SetBody, is_allowed, text_of, read_port_name, handle_gpio_get,
  handle_gpio_toggle, handle_gpio_set,
}
use cro_pduster.Web.Gpio.Masks.{is_allowed_wraps}

get_or-elem : (xs : List Bool) (i : ℕ) (v : Bool) → get_elem? xs i ≡ some v → get_or xs i false ≡ v
get_or-elem [] i v h = cc
get_or-elem (x ∷ xs) zero v h = cc
get_or-elem (x ∷ xs) (suc i) v h = get_or-elem xs i v h

module _ {G : Signal GpioCommand} where
  -- What a served request leaves behind: the output has the state that the answer shows, the pins
  -- follow the states, and the other outputs are as they were.
  abbrev pub Served : ℕ → Bool → Gpio G → GpioToggleResponse × Gpio G → Type 0
  Served pin level g out =
      (out.0 ≡ record { pin = pin; state = level })
      × (get_elem? out.1.states pin ≡ some level)
      × IsSynced out.1
      × ((j : ℕ) → pin ≢ j → get_elem? out.1.states j ≡ get_elem? g.states j)

  module _ (L : IsLatest G) (g : Gpio G) where
    served :
        (cmd : GpioCommand)
        → IsSynced g
        → pin_index G cmd < 8
        → let g' = gpio_task G (signal G cmd g) in
          let pin = pin_index G cmd in
          Served pin
            (new_state G cmd g.states)
            g
            (record { pin = pin; state = get_or g'.states pin false }, g')
    served cmd h lt =
        let idle : Gpio G = record g { slot = G.new } in
        let synced : IsSynced idle = record { states_count = h.states_count; driven = h.driven } in
        let (own, _) = run_command_lem cmd idle 0 synced lt in
        rw (gpio_task-signal L cmd g) (
          ap (λ s. record { pin = pin_index G cmd; state = s })
              (get_or-elem _ (pin_index G cmd) _ own),
          own,
          run_command-IsSynced cmd idle synced,
          λ j ne. (run_command_lem cmd idle j synced lt).1 ne,
        )

    -- Where the relay task is polled during the wait, a toggle or set request of a user who may switch
    -- an existing output flips that output, or gives it the state that was asked, answers with its new
    -- state, leaves the seven others as they were, and keeps the pins in step with the states.
    pub switch-Served :
        (pin : ℕ) (user : AuthUser) (body : SetBody)
        → IsSynced g
        → pin < 8
        → is_allowed user.allowed_ports pin ≡ true
        → Served pin
            (not (get_or g.states pin false))
            g
            (handle_gpio_toggle G (gpio_task G) pin user g)
          × Served pin body.state g (handle_gpio_set G (gpio_task G) pin user body g)
    unfolding handle_gpio_toggle handle_gpio_set
    switch-Served pin user body h lt may =
        let there : leb 8 pin ≡ false = ground arith in
        rw (there, may) (served (toggle pin) h lt, served (set_to pin body.state) h lt)

-- `GET` for a port that does not exist answers with the state `false`, and shows as the permission
-- that of another port, though `toggle` and `set` refuse it.
get_phantom :
    {H : Heapless}
    → IsBounded H
    → (E : Ekv) (G : Signal GpioCommand) {X : Type 0} (pin : ℕ) (user : AuthUser) (g : Gpio G)
      (d : E.Db)
    → 8 ≤ pin
    → (name : Bytes) × (handle_gpio_get G H E {X = X} pin user g d
        ≡ ok (record {
          pin = pin;
          state = false;
          name = name;
          allowed = is_allowed user.allowed_ports (pin % 8);
        }))
unfolding handle_gpio_get read_port_name
get_phantom {H} B E G pin user g d h = (
  text_of H E (E.read d (name_key pin) 16),
  ground (arith, port_name_key_lem B pin, is_allowed_wraps user.allowed_ports pin),
)
