-- ===== src/Storage/Database/Examples.antt =====
-- A first start whose flash fails at the third commit.
use cro_pduster.Prelude.{◌≤◌, ◌≡◌, refl, true, false, [], Bytes, length}
use cro_pduster.Platform.Memory.{heapless, heapless-IsBounded, sha2}
use cro_pduster.Platform.Faulty.{faulty, faulty-IsAtomic}
use cro_pduster.Outcome.{ok, err, panic}
use cro_pduster.Storage.Database.{seed_defaults, init_database, format_or_panic}
use cro_pduster.Storage.Database.Interrupted.{first_start_locks_out}
use cro_pduster.Storage.Keys.{user_admin_key, user_ports_key, user_pw_key, port_name_key}
use cro_pduster.Storage.PortNames.{port_entries, port_entry}
use cro_pduster.Transaction.{transaction}
use cro_pduster.Auth.{invalid_credentials, verify}

abbrev blank_device : faulty.Db
blank_device = record { formatted = false; commits_left = 2; table = [] }

abbrev half_seeded : faulty.Db
half_seeded = (init_database heapless sha2 faulty {X = Unit} blank_device).1

first_start_panics :
    init_database heapless sha2 faulty {X = Unit} blank_device ≡ (panic, half_seeded)
unfolding init_database seed_defaults format_or_panic port_entries port_entry port_name_key
    user_admin_key user_ports_key user_pw_key transaction
first_start_panics = refl

half_seeded_mounts : (faulty.mount half_seeded).0 ≡ true
unfolding init_database seed_defaults format_or_panic port_entries port_entry port_name_key
    user_admin_key user_ports_key user_pw_key transaction
half_seeded_mounts = refl

first_start_locks_out_example :
    (d'' : faulty.Db) × (init_database heapless sha2 faulty {X = Unit} half_seeded ≡ (ok tt, d''))
    × ((u password : Bytes)
        → length u ≤ 56
        → verify heapless sha2 faulty d'' u password ≡ err invalid_credentials)
first_start_locks_out_example =
    first_start_locks_out faulty-IsAtomic heapless-IsBounded sha2 {X = Unit} blank_device
      half_seeded refl refl first_start_panics half_seeded_mounts
