-- ===== src/Web/Gpio.antt =====
-- application/src/web/gpio.rs: the handlers that read and switch the outputs.
pub mod Access
pub mod Steps
pub mod Masks
mod Examples
use Prim.Native.Nat.{bit_and}
use cro_pduster.Prelude.{
  ℕ, ◌%◌, ◌^◌, Bool, true, false, not, ◌||◌, Option, none, some, [], Bytes, get_or, ltb, leb, ◌==◌,
  if◌then◌else◌,
}
use cro_pduster.Platform.{Heapless, Ekv, Signal}
use cro_pduster.Outcome.{Result, ok, panic}
use cro_pduster.Text.{is_utf8}
use cro_pduster.Storage.Keys.{port_name_key}
use cro_pduster.Auth.{AuthUser}
use cro_pduster.Gpio.{GpioCommand, toggle, set_to, Gpio, signal}

pub record GpioStateResponse : Type 0 where
  pub pin : ℕ
  pub state : Bool
  pub name : Bytes
  pub allowed : Bool

pub record GpioToggleResponse : Type 0 where
  pub pin : ℕ
  pub state : Bool

pub record SetBody : Type 0 where
  pub state : Bool

-- `allowed_ports & (1 << pin) != 0` on `u8`: a release build shifts by `pin` modulo 8.
pub is_allowed : ℕ → ℕ → Bool
is_allowed allowed_ports pin = not (bit_and allowed_ports (2 ^ (pin % 8)) == 0)

abbrev or_default : Option Bytes → Bytes
or_default none = []
or_default (some v) = v

module _ (H : Heapless) (E : Ekv) where
  abbrev text_of : Option Bytes → Bytes
  text_of none = []
  text_of (some v) =
      let text = or_default (H.extend_from_slice 16 [] v) in if is_utf8 text then text else []

  pub read_port_name : {X : Type 0} → ℕ → E.Db → Result X Bytes
  read_port_name pin d = elim (port_name_key H pin) [
    | none ↦ panic
    | some key ↦ ok (text_of (E.read d key 16))
  ]

module _ (G : Signal GpioCommand) where
  -- `states[pin]`, or `false` out of range.
  abbrev pub state_of : ℕ → Gpio G → Bool
  state_of pin g = if ltb pin 8 then get_or g.states pin false else false

  abbrev gpio_response :
      {X : Type 0} → ℕ → AuthUser → Gpio G → Result X Bytes → Result X GpioStateResponse
  gpio_response pin user g (ok name) = ok (record {
    pin = pin;
    state = state_of pin g;
    name = name;
    allowed = is_allowed user.allowed_ports pin;
  })
  gpio_response pin user g (Result.err e) = Result.err e
  gpio_response pin user g panic = panic

  pub handle_gpio_get :
      (H : Heapless) (E : Ekv) {X : Type 0}
      → ℕ
      → AuthUser
      → Gpio G
      → E.Db
      → Result X GpioStateResponse
  handle_gpio_get H E pin user g d = gpio_response pin user g (read_port_name H E pin d)

  -- `wait` is what the other tasks do during the millisecond after the signal.
  unfoldable pub handle_gpio_toggle :
      (Gpio G → Gpio G) → ℕ → AuthUser → Gpio G → GpioToggleResponse × Gpio G
  handle_gpio_toggle wait pin user g =
      if leb 8 pin || not (is_allowed user.allowed_ports pin)
      then (record { pin = pin; state = state_of pin g }, g)
      else (let g' = wait (signal G (toggle pin) g) in
          (record { pin = pin; state = get_or g'.states pin false }, g'))

  unfoldable pub handle_gpio_set :
      (Gpio G → Gpio G) → ℕ → AuthUser → SetBody → Gpio G → GpioToggleResponse × Gpio G
  handle_gpio_set wait pin user body g =
      if leb 8 pin || not (is_allowed user.allowed_ports pin)
      then (record { pin = pin; state = state_of pin g }, g)
      else (let g' = wait (signal G (set_to pin body.state) g) in
          (record { pin = pin; state = get_or g'.states pin false }, g'))
