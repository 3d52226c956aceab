-- ===== src/Boot/Watchdog.antt =====
-- application/src/main.rs: the start never starves the watchdog, and spawns every task.
use cro_pduster.Prelude.{
  ℕ, zero, suc, ◌+◌, ◌≤◌, ◌<◌, ◌≡◌, refl, ap, ◌∙◌, inl, inr, Bool, true, false, Option, none, some,
  List, [], ◌∷◌, ◌++◌, Bytes, ◌==◌, Bool-cases, arith, if◌then◌else◌,
}
use cro_pduster.Outcome.{ok}
use cro_pduster.Boot.{
  Task, gpio_task, ethernet_task, net_task, sensor_task, web_task, Event, feed, after_millis, Board,
  db, perform, run, dhcp_events, has_address, blink_events, loop_events, ready_events, main_events,
  start_board,
}

-- The tasks that run while the firmware waits for an address, and once it has one.
abbrev pub network_tasks : List Task
network_tasks = gpio_task ∷ ethernet_task ∷ net_task ∷ []

abbrev pub all_tasks : List Task
all_tasks = network_tasks ++ (sensor_task ∷ web_task 0 ∷ web_task 1 ∷ web_task 2 ∷ web_task 3 ∷ [])

abbrev then_run : List Event → Option Board → Option Board
then_run es none = none
then_run es (some b) = run es b

then_run-append :
    (es fs : List Event)
    → ((b : Board) → run (es ++ fs) b ≡ then_run fs (run es b))
    → (o : Option Board) → then_run (es ++ fs) o ≡ then_run fs (then_run es o)
then_run-append es fs h none = refl
then_run-append es fs h (some b) = h b

run-append : (es fs : List Event) (b : Board) → run (es ++ fs) b ≡ then_run fs (run es b)
unfolding run
run-append [] fs b = refl
run-append (e ∷ es) fs b = then_run-append es fs (run-append es fs) (perform e b)

-- The board with another time since the watchdog was fed.
abbrev fed : ℕ → Board → Board
fed t b = record b { watchdog = some t }

run-dhcp_events :
    (polls : List Bool) (b : Board) (t : ℕ)
    → t ≤ 200
    → (t' : ℕ) × (t' ≤ 200) × (run (dhcp_events polls) (fed t b) ≡ some (fed t' b))
unfolding run
run-dhcp_events [] b t h = (t, h, refl)
run-dhcp_events (true ∷ polls) b t h = (t, h, refl)
run-dhcp_events (false ∷ polls) b t h = run-dhcp_events polls b 200 (omega arith)

run-loop_events :
    (rounds : ℕ) (b : Board) (t : ℕ)
    → (t' : ℕ) × (run (loop_events rounds) (fed t b) ≡ some (fed t' b))
unfolding run
run-loop_events zero b t = (t, refl)
run-loop_events (suc rounds) b t = run-loop_events rounds b 4000

abbrev board : Bytes → ℕ → List Task → ℕ → Board
board mac_addr db_ptr tasks t = record {
  mac_addr = mac_addr;
  db_ptr = db_ptr;
  tasks = tasks;
  watchdog = some t;
}

run-after_millis :
    (ms : ℕ) (es : List Event) (mac_addr : Bytes) (db_ptr : ℕ) (tasks : List Task) (t : ℕ)
    → t + ms < 8000
    → run (after_millis ms ∷ es) (board mac_addr db_ptr tasks t)
      ≡ run es (board mac_addr db_ptr tasks (t + ms))
unfolding run
run-after_millis ms es mac_addr db_ptr tasks t h = ground arith

-- From the address on: the last tasks, the blinks, the last loop.
run-ready_events :
    (mac_addr : Bytes) (db_ptr rounds t : ℕ)
    → t ≤ 200
    → (t' : ℕ) × (run (ready_events rounds) (board mac_addr db_ptr network_tasks t)
        ≡ some (board mac_addr db_ptr all_tasks t'))
unfolding run
run-ready_events mac_addr db_ptr rounds t h =
    let (t', ran) = run-loop_events rounds (board mac_addr db_ptr all_tasks 0) 0 in
    let rest = feed ∷ (blink_events 2 ++ loop_events rounds) in
    let first =
      run-after_millis 100 (after_millis 100 ∷ rest) mac_addr db_ptr all_tasks t (omega arith) in
    let second = run-after_millis 100 rest mac_addr db_ptr all_tasks (t + 100) (omega arith) in
    (t', first ∙ second ∙ ran)

-- A start that runs: the tasks that it has spawned, and the database and address that they see.
pub record IsRunning (mac_addr : Bytes) (db_addr : ℕ) (ready : Bool) (b : Board) : Type 0 where
  pub mac : b.mac_addr ≡ mac_addr
  pub db_ok : db {X = Unit {0}} b ≡ ok db_addr
  pub spawned : b.tasks ≡ (if ready then all_tasks else network_tasks)

-- However long the firmware waits for an address and however long it has run since: the watchdog has
-- never run out, no task was short of a place in its pool, the database is registered, and the tasks
-- that run are the outputs', the Ethernet's and the network's, and, once there is an address, the
-- sensors' and the four web tasks too. (The Ethernet chip answers, and the
-- database does not lie at address 0.)
pub main_events-IsRunning :
    (mac_addr : Bytes) (db_addr : ℕ) (polls : List Bool) (rounds : ℕ)
    → 0 < db_addr
    → (b : Board) × (run (main_events db_addr true polls rounds) (start_board mac_addr) ≡ some b)
      × IsRunning mac_addr db_addr (has_address polls) b
unfolding run main_events db
main_events-IsRunning mac_addr db_addr polls rounds h =
    let there : (db_addr == 0) ≡ false = ground arith in
    let rest = if has_address polls then ready_events rounds else [] in
    let (t, small, waited) =
      run-dhcp_events polls (board mac_addr db_addr network_tasks 0) 0 (omega arith) in
    let split = run-append (dhcp_events polls) rest (board mac_addr db_addr network_tasks 0) in
    elim (Bool-cases (has_address polls)) [
      | inl e ↦
          let (t', ran) = run-ready_events mac_addr db_addr rounds t small in
          (
            board mac_addr db_addr all_tasks t',
            rw e (rw e at split ∙ ap (then_run (ready_events rounds)) waited ∙ ran),
            rw e (record { mac = refl; db_ok = rw there; spawned = refl }),
          )
      | inr e ↦ (
        board mac_addr db_addr network_tasks t,
        rw e (rw e at split ∙ ap (then_run []) waited),
        rw e (record { mac = refl; db_ok = rw there; spawned = refl }),
      )
    ]
