-- ===== src/System/Outputs.antt =====
-- An output that is off, over any life of the device.
use cro_pduster.Prelude.{
  ℕ, zero, suc, ◌<◌, ◌≡◌, refl, inl, inr, Bool, false, Option, none, some, Bytes, get_elem?,
  replicate, arith,
}
use cro_pduster.Platform.{Signal, IsLatest}
use cro_pduster.Platform.Bootloader.{Bootloader}
use cro_pduster.Outcome.{ok}
use cro_pduster.Auth.{AuthUser, auth_user}
use cro_pduster.Gpio.{Gpio, GpioCommand, start}
use cro_pduster.Gpio.Task.{IsSynced}
use cro_pduster.Web.Gpio.{is_allowed}
use cro_pduster.Web.Gpio.Steps.{IsQuiet, Step-IsQuiet, poll-IsQuiet}
use cro_pduster.Web.Requests.{Crates, Device, Request}
use cro_pduster.Web.Requests.Access.{answered}
use cro_pduster.Web.Requests.Switches.{
  IsFrom, IsSwitched, unswitched, switched_by, request-IsSwitched,
}
use cro_pduster.System.{SystemStep, request, poll, restart, SystemReach, here, next}

get_elem?-replicate : (n j : ℕ) (b : Bool) → j < n → get_elem? (replicate n b) j ≡ some b
get_elem?-replicate zero j b h = absurd (omega arith)
get_elem?-replicate (suc n) zero b h = refl
get_elem?-replicate (suc n) (suc j) b h = get_elem?-replicate n j b (omega arith)

start-IsQuiet : {G : Signal GpioCommand} → IsLatest G → (j : ℕ) → j < 8 → IsQuiet j false (start G)
unfolding start
start-IsQuiet L j h = record {
  synced = record { states_count = refl; driven = refl };
  holds = get_elem?-replicate 8 j false h;
  waiting = λ c e. cc (e, L.take-new);
}

module _ (C : Crates) (parse_u8 : Bytes → Option ℕ) (L : IsLatest C.signal) (j : ℕ)
    (in_range : j < 8) where
  module _ {Sends : Request C → Device C → Type 0}
      (may_not : (q : Request C) (w : Device C) (user : AuthUser)
        → Sends q w
        → auth_user C.heapless C.sha2 C.ekv C.base64 w.db q.auth_header ≡ ok user
        → is_allowed user.allowed_ports j ≡ false) where
    switched-IsQuiet :
        (q : Request C) (w : Device C) {g : Gpio C.signal}
        → Sends q w
        → IsSwitched C q w g
        → IsQuiet j false w.gpio
        → IsQuiet j false g
    switched-IsQuiet q w sent (unswitched e) quiet = rw e quiet
    switched-IsQuiet q w sent (switched_by s) quiet =
        Step-IsQuiet L j false {Asks = IsFrom C q w}
          (λ pin user from same. may_not q w user sent from) s quiet

    step-IsQuiet :
        {B : Bootloader C.updater} {Restarts : Bool → Device C → Type 0} {w v : Device C}
        → SystemStep C parse_u8 B Sends Restarts w v
        → IsQuiet j false w.gpio
        → IsQuiet j false v.gpio
    step-IsQuiet (request q w sent) quiet =
        let (_, _, outputs) = answered C parse_u8 (λ g. g) q w in
        elim outputs [
          | inl e ↦ rw e (switched-IsQuiet q w sent (request-IsSwitched C q w parse_u8) quiet)
          | inr e ↦ rw e (start-IsQuiet L j in_range)
        ]
    step-IsQuiet (poll w) quiet = poll-IsQuiet L j false w.gpio quiet
    step-IsQuiet (restart reset uid addr answers polls rounds w allowed) quiet =
        start-IsQuiet L j in_range

    reach-IsQuiet :
        {B : Bootloader C.updater} {Restarts : Bool → Device C → Type 0} {w v : Device C}
        → SystemReach C parse_u8 B Sends Restarts w v
        → IsQuiet j false w.gpio
        → IsQuiet j false v.gpio
    reach-IsQuiet here quiet = quiet
    reach-IsQuiet (next r s) quiet = step-IsQuiet s (reach-IsQuiet r quiet)

    -- Whatever requests come, of whatever routes and with whatever credentials, and however they
    -- interleave with the relay task and with restarts: one of the eight outputs that is off stays
    -- off, its pin low and in step with its state, as long as no request is authenticated as a user
    -- that may switch it. (At the start no command waits and the pins follow the states; a signal
    -- holds the last command.)
    pub off_output_stays :
        {B : Bootloader C.updater} {Restarts : Bool → Device C → Type 0} {w v : Device C}
        → SystemReach C parse_u8 B Sends Restarts w v
        → IsSynced w.gpio
        → (C.signal.try_take w.gpio.slot).0 ≡ none
        → get_elem? w.gpio.states j ≡ some false
        → (get_elem? v.gpio.states j ≡ some false) × (get_elem? v.gpio.pins j ≡ some false)
    off_output_stays r synced idle off =
        let quiet =
          reach-IsQuiet r
            (record { synced = synced; holds = off; waiting = λ c waits. cc (idle, waits) }) in
        (quiet.holds, rw quiet.synced.driven quiet.holds)
