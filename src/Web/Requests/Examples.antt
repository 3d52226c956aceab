-- ===== src/Web/Requests/Examples.antt =====
-- Requests to a device in memory, and the theorems about them at concrete inputs.
use cro_pduster.Prelude.{
  true, ◌++◌, ℕ, ◌-◌, ◌≡◌, refl, false, Option, none, some, [], ◌∷◌, Bytes, codes, replicate, ltb,
  if◌then◌else◌, arith,
}
use cro_pduster.Platform.Memory.{
  heapless, heapless-IsBounded, sha2, sha2-IsDigest, base64, ekv, ekv-IsAtomic, ekv-IsReliable,
  signal,
}
use cro_pduster.Platform.Partition.{updater, reader}
use cro_pduster.Outcome.{ok}
use cro_pduster.Text.{eq_ignore_ascii_case, is_utf8, find}
use cro_pduster.Storage.Keys.{user_admin_key, user_ports_key, user_pw_key}
use cro_pduster.Storage.UserEntries.{user_entries}
use cro_pduster.Auth.{AuthUser, credentials, verify, auth_user}
use cro_pduster.Gpio.{GpioCommand, gpio_task}
use cro_pduster.Web.Routes.{post, gpio_toggle, handler, segments, build_app}
use cro_pduster.Web.Routes.Reach.{build_app-request_of}
use cro_pduster.Web.Requests.{Crates, Device, Request, Reply, serve, handle_request}
use cro_pduster.Boot.{Board, main}
use cro_pduster.Boot.Watchdog.{IsRunning}
use cro_pduster.Boot.Fresh.{mac_of}
use cro_pduster.Boot.Recovery.{panic_recovers}
use cro_pduster.Web.Requests.Own.{IsOwn, user_changes-IsOwn}

abbrev crates : Crates
crates = record {
  heapless = heapless;
  sha2 = sha2;
  base64 = base64;
  ekv = ekv;
  signal = signal GpioCommand;
  updater = updater;
  reader = reader;
  F32 = ℕ;
}

-- One user, `bob` with the password `secret`, who may switch the outputs 0 and 2.
abbrev device : Device crates
device = record {
  db = user_entries (codes "bob") (codes "0") (5 ∷ []) (sha2.sha256 (codes "secret"));
  gpio = record { slot = none; states = replicate 8 false; pins = replicate 8 false };
  firmware = (λ i. 0xFF, false);
  sensor_data = record { temperature_c = 20; voltage_v = 230; current_total_a = 1; power_w = 100 };
}

-- `POST /api/gpio/2/toggle`
abbrev toggle_2 : Option Bytes → Request crates
toggle_2 auth_header = record {
  method = post;
  method_name = codes "POST";
  path = segments ("api" ∷ "gpio" ∷ "2" ∷ "toggle" ∷ []);
  auth_header = auth_header;
  content_length = 0;
  body = [];
  set_json = none;
  port_name_json = none;
  password_json = none;
  user_json = none;
  ports_json = none;
}

-- Numbers as single bytes.
abbrev print_u8 : ℕ → Bytes
print_u8 n = n ∷ []

abbrev read_u8 : Bytes → Option ℕ
read_u8 [] = none
read_u8 (b ∷ []) = some b
read_u8 (b ∷ c ∷ bs) = none

abbrev digit : Bytes → Option ℕ
digit [] = none
digit (b ∷ []) = if ltb b 58 then some (b - 48) else none
digit (b ∷ c ∷ bs) = none

abbrev bob : AuthUser
bob = record { username = codes "bob"; is_admin = false; allowed_ports = 5 }

abbrev bob_header : Option Bytes
bob_header = some (codes "Basic bob:secret")

login : auth_user heapless sha2 ekv base64 device.db bob_header ≡ ok bob
unfolding auth_user credentials verify eq_ignore_ascii_case is_utf8 find user_pw_key user_admin_key
    user_ports_key
login = refl

user_changes-IsOwn_example :
    IsOwn crates bob
      (build_app digit post (segments ("api" ∷ "gpio" ∷ "2" ∷ "toggle" ∷ [])))
      device
      (handle_request crates digit (gpio_task crates.signal) (toggle_2 bob_header) device).1
user_changes-IsOwn_example =
    user_changes-IsOwn crates ekv-IsAtomic (gpio_task crates.signal) (toggle_2 bob_header) device
      digit bob login refl

build_app-request_of_example :
    build_app read_u8 post (codes "api" ∷ codes "gpio" ∷ (7 ∷ []) ∷ codes "toggle" ∷ [])
    ≡ handler (gpio_toggle 7)
build_app-request_of_example =
    build_app-request_of read_u8 print_u8 (λ n h. refl) (gpio_toggle 7) (omega arith)

-- A username of 57 bytes makes the login panic.
abbrev long_name : Request crates
long_name = toggle_2 (some (codes "Basic " ++ (replicate 57 b'x' ++ codes ":secret")))

long_name_panics :
    (handle_request crates digit (gpio_task crates.signal) long_name device).0 ≡ Reply.panics
unfolding handle_request serve build_app auth_user credentials verify user_admin_key user_ports_key
    user_pw_key eq_ignore_ascii_case is_utf8 find
long_name_panics = refl

panic_recovers_example :
    (b : Board) × (d' : ekv.Db) × (main heapless sha2 ekv {X = Unit} false
        (some (1 ∷ 2 ∷ 3 ∷ []))
        4096
        true
        (true ∷ [])
        0
        (handle_request crates digit (gpio_task crates.signal) long_name device).1.db
      ≡ (ok b, d'))
    × IsRunning (mac_of sha2 (1 ∷ 2 ∷ 3 ∷ [])) 4096 true b
    × ((j : Bytes) → ekv.stored d' j ≡ ekv.stored device.db j)
panic_recovers_example =
    panic_recovers crates {X = Unit} heapless-IsBounded sha2-IsDigest ekv-IsAtomic ekv-IsReliable
      digit (gpio_task crates.signal) long_name device (1 ∷ 2 ∷ 3 ∷ []) 4096 (true ∷ []) 0
      (omega arith) refl long_name_panics
