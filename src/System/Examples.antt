-- ===== src/System/Examples.antt =====
-- A run of the device in memory, and the theorem about it.
use cro_pduster.Prelude.{
  ◌≢◌, of_some, Bool, ℕ, ◌-◌, ◌≡◌, refl, true, false, Option, none, some, [], ◌∷◌, Bytes, codes,
  replicate, ltb, get_elem?, if◌then◌else◌, arith,
}
use cro_pduster.Platform.Memory.{heapless, sha2, base64, ekv, ekv-IsAtomic, signal, signal-IsLatest}
use cro_pduster.Platform.Partition.{reader}
use cro_pduster.Platform.Swap.{swap_updater, bootloader, bootloader-IsBootloader}
use cro_pduster.Outcome.{ok}
use cro_pduster.Text.{eq_ignore_ascii_case, is_utf8, find}
use cro_pduster.Storage.Keys.{user_admin_key, user_ports_key, user_pw_key}
use cro_pduster.Storage.UserEntries.{user_entries}
use cro_pduster.Auth.{AuthUser, credentials, verify, auth_user}
use cro_pduster.Gpio.{GpioCommand}
use cro_pduster.Web.Gpio.{is_allowed}
use cro_pduster.Web.Gpio.Masks.{is_allowed_bit}
use cro_pduster.Web.Routes.{post, segments}
use cro_pduster.Web.Requests.{Crates, Device, Request}
use cro_pduster.System.{
  after_request, after_poll, after_restart, request, poll, restart, SystemReach, here, next,
}
use cro_pduster.System.Outputs.{off_output_stays}
use cro_pduster.System.Settings.{settings_stay}
use cro_pduster.Storage.Keys.Laws.{admin_key, pw-ne-admin}

abbrev crates : Crates
crates = record {
  heapless = heapless;
  sha2 = sha2;
  base64 = base64;
  ekv = ekv;
  signal = signal GpioCommand;
  updater = swap_updater;
  reader = reader;
  F32 = ℕ;
}

abbrev bob : AuthUser
bob = record { username = codes "bob"; is_admin = false; allowed_ports = 5 }

-- `bob` may switch the outputs 0 and 2.
abbrev device : Device crates
device = record {
  db = user_entries (codes "bob") (codes "0") (5 ∷ []) (sha2.sha256 (codes "secret"));
  gpio = record { slot = none; states = replicate 8 false; pins = replicate 8 false };
  firmware = record {
    active = λ i. 7;
    dfu = λ i. 0xFF;
    old = λ i. 0;
    marked = false;
    swapped = false;
  };
  sensor_data = record { temperature_c = 20; voltage_v = 230; current_total_a = 1; power_w = 100 };
}

abbrev header : Bytes
header = codes "Basic bob:secret"

-- `POST /api/gpio/3/toggle`
abbrev toggle_3 : Request crates
toggle_3 = record {
  method = post;
  method_name = codes "POST";
  path = segments ("api" ∷ "gpio" ∷ "3" ∷ "toggle" ∷ []);
  auth_header = some header;
  content_length = 0;
  body = [];
  set_json = none;
  port_name_json = none;
  password_json = none;
  user_json = none;
  ports_json = none;
}

abbrev digit : Bytes → Option ℕ
digit [] = none
digit (b ∷ []) = if ltb b 58 then some (b - 48) else none
digit (b ∷ c ∷ bs) = none

bob_logs_in : auth_user heapless sha2 ekv base64 device.db (some header) ≡ ok bob
unfolding auth_user credentials verify user_admin_key user_ports_key user_pw_key
    eq_ignore_ascii_case is_utf8 find
bob_logs_in = refl

-- Only bob's request comes, and only to the database that holds bob alone.
abbrev Sends : Request crates → Device crates → Type 0
Sends q w = (q.auth_header ≡ some header) × (w.db ≡ device.db)

-- The chip may restart, with the factory reset pin high.
abbrev Restarts : Bool → Device crates → Type 0
Restarts true w = ⊥
Restarts false w = Unit

bob_may_not : is_allowed bob.allowed_ports 3 ≡ false
bob_may_not = is_allowed_bit 5 3 (omega arith) (omega arith)

may_not :
    (q : Request crates) (w : Device crates) (user : AuthUser)
    → Sends q w
    → auth_user heapless sha2 ekv base64 w.db q.auth_header ≡ ok user
    → is_allowed user.allowed_ports 3 ≡ false
may_not q w user (h, d) from =
    let from' : auth_user heapless sha2 ekv base64 device.db (some header) ≡ ok user =
      rw (h, d) at from in
    let same : bob ≡ user = cc (from', bob_logs_in) in rw (← same) bob_may_not

abbrev refused : Device crates
refused = after_request crates digit toggle_3 device

abbrev restarted : Device crates
restarted =
    after_restart crates digit bootloader false (some (1 ∷ [])) 4096 true [] 0
      (after_poll crates digit refused)

life : SystemReach crates digit bootloader Sends Restarts device restarted
life =
    next (next (next here (request toggle_3 device (refl, refl))) (poll refused))
      (restart false (some (1 ∷ [])) 4096 true [] 0 (after_poll crates digit refused) tt)

off_output_stays_example :
    (get_elem? restarted.gpio.states 3 ≡ some false)
    × (get_elem? restarted.gpio.pins 3 ≡ some false)
off_output_stays_example =
    off_output_stays crates digit (signal-IsLatest GpioCommand) 3 (omega arith) may_not life
      (record { states_count = refl; driven = refl }) refl refl

plain :
    (q : Request crates) (w : Device crates) (user : AuthUser)
    → Sends q w
    → auth_user heapless sha2 ekv base64 w.db q.auth_header ≡ ok user
    → (user.is_admin ≡ false) × (user_pw_key heapless user.username ≢ some (admin_key bob.username))
unfolding user_pw_key
plain q w user (h, d) from =
    let from' : auth_user heapless sha2 ekv base64 device.db (some header) ≡ ok user =
      rw (h, d) at from in
    let same : bob ≡ user = cc (from', bob_logs_in) in
    rw (← same) (refl, λ e. pw-ne-admin bob.username bob.username (of_some e))

mounts :
    (pin_low : Bool) (w : Device crates)
    → Restarts pin_low w
    → (pin_low ≡ false) × ((ekv.mount w.db).0 ≡ true)
mounts true w allowed = absurd allowed
mounts false w allowed = (refl, refl)

settings_stay_example :
    (ekv.stored restarted.db (admin_key bob.username)
      ≡ ekv.stored device.db (admin_key bob.username))
    × (restarted.firmware ≡ device.firmware)
settings_stay_example =
    settings_stay crates digit ekv-IsAtomic bootloader-IsBootloader (admin_key bob.username) plain
      mounts life refl
