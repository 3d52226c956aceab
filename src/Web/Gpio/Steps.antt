-- ===== src/Web/Gpio/Steps.antt =====
-- The outputs under any interleaving of requests and polls of the task. A request's signal and the
-- poll that takes it are steps of their own, so other steps may come between them.
use cro_pduster.Prelude.{
  ℕ, ◌<◌, ◌≡◌, ◌≢◌, Bool, true, false, not, ◌||◌, none, some, get_elem?, leb, Option-cases,
  Bool-cases, ◌∙◌, inl, inr, arith,
}
use cro_pduster.Platform.{Signal, IsLatest}
use cro_pduster.Auth.{AuthUser}
use cro_pduster.Gpio.{GpioCommand, toggle, set_to, Gpio, pin_index, run_command, gpio_task, signal}
use cro_pduster.Gpio.Task.{IsSynced, run_command-IsSynced, run_command_lem}
use cro_pduster.Web.Gpio.{SetBody, is_allowed, handle_gpio_toggle, handle_gpio_set}

-- The handlers up to their wait, and the task; `Asks` says which requests come.
pub data Step (G : Signal GpioCommand) (Asks : ℕ → AuthUser → Type 0)
    : Gpio G → Gpio G → Type 0 where
  request_toggle :
      (pin : ℕ) (user : AuthUser) (g : Gpio G)
      → Asks pin user
      → Step G Asks g (handle_gpio_toggle G (λ h. h) pin user g).1
  request_set :
      (pin : ℕ) (user : AuthUser) (body : SetBody) (g : Gpio G)
      → Asks pin user
      → Step G Asks g (handle_gpio_set G (λ h. h) pin user body g).1
  poll : (g : Gpio G) → Step G Asks g (gpio_task G g)

pub data Reach (G : Signal GpioCommand) (Asks : ℕ → AuthUser → Type 0) (s : Gpio G)
    : Gpio G → Type 0 where
  here : Reach G Asks s s
  next : {t u : Gpio G} → Reach G Asks s t → Step G Asks t u → Reach G Asks s u

-- The invariant for an output `j` that holds `level`: the outputs agree with the states, and a
-- command that waits is for an existing output other than `j`.
pub record IsQuiet {G : Signal GpioCommand} (j : ℕ) (level : Bool) (g : Gpio G) : Type 0 where
  pub synced : IsSynced g
  pub holds : get_elem? g.states j ≡ some level
  pub waiting :
      (cmd : GpioCommand)
      → (G.try_take g.slot).0 ≡ some cmd
      → (pin_index G cmd < 8) × (pin_index G cmd ≢ j)

module _ {G : Signal GpioCommand} (L : IsLatest G) (j : ℕ) (level : Bool) where
  signal-IsQuiet :
      (cmd : GpioCommand) (g : Gpio G)
      → pin_index G cmd < 8
      → pin_index G cmd ≢ j
      → IsQuiet j level g
      → IsQuiet j level (signal G cmd g)
  unfolding signal
  signal-IsQuiet cmd g lt ne q = record {
    synced = record { states_count = q.synced.states_count; driven = q.synced.driven };
    holds = q.holds;
    waiting = λ c e. ground (arith, L.take-signal cmd g.slot);
  }

  slot-run_command : (cmd : GpioCommand) (g : Gpio G) → (run_command G cmd g).slot ≡ g.slot
  unfolding run_command
  slot-run_command cmd g = ground arith

  -- After a poll no command waits.
  nothing_waits : (s : G.Slot) (cmd : GpioCommand) → (G.try_take (G.try_take s).1).0 ≡ some cmd → ⊥
  nothing_waits s cmd e = cc (e, L.take_empties s)

  pub poll-IsQuiet : (g : Gpio G) → IsQuiet j level g → IsQuiet j level (gpio_task G g)
  unfolding gpio_task
  poll-IsQuiet g q =
      let slot' = (G.try_take g.slot).1 in
      let idle : Gpio G = record g { slot = slot' } in
      let synced : IsSynced idle = record {
        states_count = q.synced.states_count;
        driven = q.synced.driven;
      } in
      elim (Option-cases (G.try_take g.slot).0) [
        | inl e ↦ rw e (record {
          synced = synced;
          holds = q.holds;
          waiting = λ c waits. absurd (nothing_waits g.slot c waits);
        })
        | inr (cmd, e) ↦
            let (lt, ne) = q.waiting cmd e in
            rw e (record {
              synced = run_command-IsSynced cmd idle synced;
              holds = (run_command_lem cmd idle j synced lt).1 ne ∙ q.holds;
              waiting = λ c waits.
                  absurd (nothing_waits g.slot c (rw (← slot-run_command cmd idle) waits));
            })
      ]

  -- What a request may be for: output `j` only from users that may not switch it.
  module _ {Asks : ℕ → AuthUser → Type 0}
      (may_not : (pin : ℕ) (user : AuthUser)
        → Asks pin user
        → pin ≡ j
        → is_allowed user.allowed_ports j ≡ false) where
    guard_passed :
        (mask pin : ℕ)
        → leb 8 pin || not (is_allowed mask pin) ≡ false
        → (pin < 8) × (is_allowed mask pin ≡ true)
    guard_passed mask pin e = ground arith

    pub Step-IsQuiet : {g h : Gpio G} → Step G Asks g h → IsQuiet j level g → IsQuiet j level h
    unfolding handle_gpio_toggle handle_gpio_set
    Step-IsQuiet (request_toggle pin user g asks) q =
        elim (Bool-cases (leb 8 pin || not (is_allowed user.allowed_ports pin))) [
          | inl e ↦ rw e q
          | inr e ↦
              let (lt, may) = guard_passed user.allowed_ports pin e in
              rw e (
                signal-IsQuiet (toggle pin) g lt
                  (λ same. ground (arith, may_not pin user asks same)) q)
        ]
    Step-IsQuiet (request_set pin user body g asks) q =
        elim (Bool-cases (leb 8 pin || not (is_allowed user.allowed_ports pin))) [
          | inl e ↦ rw e q
          | inr e ↦
              let (lt, may) = guard_passed user.allowed_ports pin e in
              rw e (
                signal-IsQuiet (set_to pin body.state) g lt
                  (λ same. ground (arith, may_not pin user asks same)) q)
        ]
    Step-IsQuiet (poll g) q = poll-IsQuiet g q

    reach-IsQuiet : {g h : Gpio G} → Reach G Asks g h → IsQuiet j level g → IsQuiet j level h
    reach-IsQuiet here q = q
    reach-IsQuiet (next r s) q = Step-IsQuiet s (reach-IsQuiet r q)

    -- Whatever requests come and however they interleave with the task: an output that no request
    -- may switch, because all requests for it come from users without its permission, keeps its
    -- state and its level. (At the start no command waits, and the outputs agree with the states.)
    pub output_protected :
        {g h : Gpio G}
        → Reach G Asks g h
        → IsSynced g
        → (G.try_take g.slot).0 ≡ none
        → get_elem? g.states j ≡ some level
        → (get_elem? h.states j ≡ some level) × (get_elem? h.pins j ≡ some level) × IsSynced h
    output_protected r synced idle at =
        let q =
          reach-IsQuiet r
            (record { synced = synced; holds = at; waiting = λ c waits. cc (idle, waits) }) in
        (q.holds, rw q.synced.driven q.holds, q.synced)
