-- ===== src/Boot.antt =====
-- application/src/main.rs: the start of the firmware, with the database pointer of
-- application/src/web/mod.rs. What `main` does after the database is a list of events. Only timers
-- take time.
pub mod Watchdog
pub mod Fresh
pub mod Recovery
pub mod Mounted
mod Examples
use cro_pduster.Prelude.{
  ℕ, zero, suc, ◌+◌, Bool, true, false, Option, none, some, List, [], ◌∷◌, ◌++◌, Bytes, codes,
  get_or, leb, ltb, ◌==◌, if◌then◌else◌,
}
use cro_pduster.Platform.{Heapless, Sha2, Ekv}
use cro_pduster.Outcome.{Result, ok, err, panic, Action, lift, pure, unwrap, continue, ◌>>=◌, ◌>>◌}
use cro_pduster.Storage.Database.{seed_defaults, init_database}

-- `none` is the error of `blocking_unique_id`.
pub mac_address_from_flash : {X : Type 0} → Sha2 → Option Bytes → Result X Bytes
mac_address_from_flash S none = panic
mac_address_from_flash S (some uid) =
    let digest = S.sha256 (codes "CroPDUster MAC" ++ uid) in
    ok (
      0x02
      ∷ get_or digest 0 0
      ∷ get_or digest 1 0
      ∷ get_or digest 2 0
      ∷ get_or digest 3 0
      ∷ get_or digest 4 0
      ∷ [])

pub data Task : Type 0 where
  gpio_task ethernet_task net_task sensor_task : Task
  web_task : ℕ → Task

-- `WEB_TASK_POOL_SIZE`, and the pool that the token of a task comes from.
abbrev pub web_task_pool_size : ℕ
web_task_pool_size = 4

abbrev pub pool_size : Task → ℕ
pool_size gpio_task = 1
pool_size ethernet_task = 1
pool_size net_task = 1
pool_size sensor_task = 1
pool_size (web_task id) = web_task_pool_size

abbrev pub same_pool : Task → Task → Bool
same_pool gpio_task gpio_task = true
same_pool ethernet_task ethernet_task = true
same_pool net_task net_task = true
same_pool sensor_task sensor_task = true
same_pool (web_task i) (web_task j) = true
same_pool _ _ = false

abbrev pub in_pool : Task → List Task → ℕ
in_pool t [] = 0
in_pool t (u ∷ us) = (if same_pool t u then 1 else 0) + in_pool t us

-- What the rest of `main` does. Times are in milliseconds. `init_ethernet` is `embassy_net_wiznet::new`
-- with its `unwrap`, by whether the chip answers.
pub data Event : Type 0 where
  init_db : ℕ → Event
  init_ethernet : Bool → Event
  spawn : Task → Event
  watchdog_start feed : Event
  after_millis : ℕ → Event

-- `DB_PTR` (0 is null), the running tasks, and the time since the watchdog was fed, once it runs.
pub record Board : Type 0 where
  pub mac_addr : Bytes
  pub db_ptr : ℕ
  pub tasks : List Task
  pub watchdog : Option ℕ

-- `web::db()`
pub db : {X : Type 0} → Board → Result X ℕ
db b = if b.db_ptr == 0 then panic else ok b.db_ptr

abbrev pub watchdog_period : ℕ
watchdog_period = 8000

abbrev pub elapse : ℕ → Option ℕ → Option (Option ℕ)
elapse ms none = some none
elapse ms (some t) = if ltb (t + ms) watchdog_period then some (some (t + ms)) else none

-- `none` is a reset: the chip of the Ethernet does not answer, the token of a task is not to be had, or the watchdog runs out.
abbrev pub perform : Event → Board → Option Board
perform (init_db ptr) b = some (record b { db_ptr = ptr })
perform (init_ethernet answers) b = if answers then some b else none
perform (spawn t) b =
    if ltb (in_pool t b.tasks) (pool_size t)
    then some (record b { tasks = b.tasks ++ (t ∷ []) })
    else none
perform watchdog_start b = some (record b { watchdog = some 0 })
perform feed b = some (record b { watchdog = some 0 })
perform (after_millis ms) b = elim (elapse ms b.watchdog) [
  | none ↦ none
  | some w ↦ some (record b { watchdog = w })
]

pub run : List Event → Board → Option Board
run [] b = some b
run (e ∷ es) b = elim (perform e b) [ none ↦ none | some b' ↦ run es b' ]

-- The loop that waits for an address, by what `config_v4` is at each round so far; and whether the
-- loop was left.
abbrev pub dhcp_events : List Bool → List Event
dhcp_events [] = []
dhcp_events (true ∷ polls) = []
dhcp_events (false ∷ polls) = feed ∷ after_millis 200 ∷ dhcp_events polls

abbrev pub has_address : List Bool → Bool
has_address [] = false
has_address (true ∷ polls) = true
has_address (false ∷ polls) = has_address polls

-- `for id in 0..WEB_TASK_POOL_SIZE`, from `id` on.
abbrev pub spawn_web_tasks : ℕ → ℕ → List Event
spawn_web_tasks zero id = []
spawn_web_tasks (suc rounds) id = spawn (web_task id) ∷ spawn_web_tasks rounds (id + 1)

-- The blinks of the LED, and the rounds of the last loop.
abbrev pub blink_events : ℕ → List Event
blink_events zero = []
blink_events (suc rounds) = after_millis 100 ∷ after_millis 100 ∷ feed ∷ blink_events rounds

abbrev pub loop_events : ℕ → List Event
loop_events zero = []
loop_events (suc rounds) = feed ∷ after_millis 4000 ∷ loop_events rounds

-- Steps 10 to 15, once there is an address.
abbrev pub ready_events : ℕ → List Event
ready_events rounds =
    spawn sensor_task
    ∷ (spawn_web_tasks web_task_pool_size 0 ++ (blink_events 3 ++ loop_events rounds))

-- From `web::init_db` on, by whether the chip of the Ethernet answers, until the rounds of the DHCP loop, or of the last loop, that have run.
pub main_events : ℕ → Bool → List Bool → ℕ → List Event
main_events db_addr answers polls rounds =
    init_db db_addr
    ∷ spawn gpio_task
    ∷ init_ethernet answers
    ∷ spawn ethernet_task
    ∷ spawn net_task
    ∷ watchdog_start
    ∷ (dhcp_events polls ++ (if has_address polls then ready_events rounds else []))

abbrev pub start_board : Bytes → Board
start_board mac_addr = record { mac_addr = mac_addr; db_ptr = 0; tasks = []; watchdog = none }

-- `db.format().await.ok()`, and the defaults.
pub reset_database : (H : Heapless) (S : Sha2) (E : Ekv) {X : Type 0} → Action E.Db X (Unit {0})
reset_database H S E d = seed_defaults H S E (E.format d).1

-- `main`: the factory reset pin, the address, the database, and the rest.
pub main :
    (H : Heapless) (S : Sha2) (E : Ekv) {X : Type 0}
    → Bool
    → Option Bytes
    → ℕ
    → Bool
    → List Bool
    → ℕ
    → Action E.Db X Board
main H S E factory_reset_requested uid db_addr answers polls rounds = do
  mac_addr ← lift (mac_address_from_flash S uid)
  init_database H S E
  (if factory_reset_requested then reset_database H S E else pure tt)
  lift (unwrap (run (main_events db_addr answers polls rounds) (start_board mac_addr)))
