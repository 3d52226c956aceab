-- ===== src/Lib.antt =====
-- CroPDUster, a network-attached power distribution unit: the Rust firmware in application/, its
-- bootloader in bootloader/, and the host tool in xtask/.
--
-- The firmware is a set of tasks. Web tasks answer HTTP requests: they authenticate against a key-
-- value database on flash (application/src/auth.rs, application/src/storage.rs), change that
-- database (application/src/web/admin.rs), or send commands to the task that drives eight relay
-- outputs (application/src/gpio.rs, application/src/web/gpio.rs), or take a firmware update
-- (application/src/web/update.rs). Another task reads the energy meter
-- (application/src/hlw8012.rs, application/src/sensors.rs). The host tool makes the images that
-- are flashed and uploads them (xtask/src/main.rs).
--
-- Which file models which part:
--   Prelude      shared names: byte strings, lists, tests (no code of the repository)
--   Platform     the crates that are not in the repository, as records of operations with their
--                documented laws: heapless, sha2, base64, ekv, embedded-storage, embassy-sync,
--                embassy-boot (Platform.Updater, Platform.Bootloader). Platform.Memory,
--                Platform.Partition and Platform.Swap have a value of each that meets the laws;
--                their updaters take a buffer of an erase block, which that of the chip does not
--   Outcome      how a Rust call ends (Ok, Err, panic), and actions on a state
--   Text         the functions of Rust's core on text: ASCII case, UTF-8, find
--   Transaction  a write transaction as the handlers run it (application/src/web/admin.rs)
--   Config       application/src/config.rs
--   Storage      application/src/storage.rs: Pages (PduFlash), Keys (the key builders),
--                PortNames and Database (seed_defaults, init_database, hash_password)
--   Auth         application/src/auth.rs: credentials and verify are the two halves of
--                AuthUser::from_request_parts, auth_user the whole, admin_user AdminUser's
--   Gpio         application/src/gpio.rs: run_command is one round of gpio_task
--   Web.Admin    application/src/web/admin.rs, a handler for each function;
--                Web.Admin.Interleaving has the web tasks in any order, with a change of a password
--                in two steps;
--                Web.Admin.Accounts says what the handlers make of the accounts, and that they do
--   Web.Gpio     application/src/web/gpio.rs; Web.Gpio.Steps has the interleavings
--   Web.Status   application/src/web/status.rs
--   Web.Routes   application/src/web/mod.rs: the router as a table of paths and methods
--   Web.Requests a request on the whole device: its route, the extractors, and the handler, as the
--                parameters of the handlers in application/src/web/ say
--   Web.Sensors  application/src/web/sensors.rs
--   Web.Update   application/src/web/update.rs; Platform.Updater has embassy-boot's updater and the
--                body of a request; Web.Update.Interleaving has uploads of several web tasks at once,
--                a round of the loop at a time
--   Meter        application/src/hlw8012.rs and application/src/sensors.rs: Pio is the PIO program as a
--                machine on a sampled pin, sensor_round is one round of sensor_task,
--                and the pulses that end in a wait are arguments
--   Boot         application/src/main.rs, with the database pointer of application/src/web/mod.rs: the
--                address, the database, and the rest of the start as events on the board
--   Bootloader   bootloader/src/main.rs, with the partitions of bootloader/memory.x;
--                Platform.Bootloader has embassy-boot's swap and revert
--   System       the device over time: requests, polls of the relay task and restarts, with the bootloader
--   Xtask.Uf2    xtask/src/main.rs: binary_to_uf2 and uf2_to_active_binary
--   Xtask.Elf    xtask/src/main.rs: elf_to_binary and combine
--   Xtask.Plan   xtask/src/main.rs: main, each command as the list of its steps
--   Xtask.Drive  xtask/src/main.rs: wait_for_rpi_rp2, on Linux and on macOS, and flash_uf2
--   Xtask.Ota    xtask/src/main.rs: flash_ota, and Xtask.Ota.EndToEnd with the firmware's service
--
-- State: a handler of the database is an action, from the database to a result and the database. A
-- handler of the outputs takes what the other tasks do during its wait as an argument. A panic is
-- a result of its own, since it resets the device. The start after the database is a list of
-- events on a board, of which only timers take time. Strings are lists of bytes. Arithmetic on
-- machine words wraps as in a release build, and the shift by a port number is taken modulo 8 as
-- there.
--
-- A reliable flash is one that has no fault and is not full: the store refuses only keys out of
-- order, keys of more than 64 bytes and values of more than 256. An atomic store reads back what
-- was committed, and drops a transaction that was not. Handlers run one after the other on the
-- database, as its write transactions do; the change of a password, which has a read transaction
-- before its write transaction, is taken apart in Web.Admin.Interleaving. Loops recur on a list or
-- on the rounds left (a list is cut into chunks in as many rounds as it has elements), except that
-- of the update, whose fuel is the number of bytes that remain; a run never gets to the end of it,
-- since each round takes at least one byte; and that of the wait for a drive, whose fuel is two
-- rounds a second, since each sleeps for half a second.
--
-- Not modelled: picoserve's parsing of a request into its parts and of a JSON body, what the steps
-- of the host tool run and the text of its messages, and the set-up of peripherals.
pub mod Prelude
pub mod Platform
pub mod Outcome
pub mod Transaction
pub mod Config
pub mod Storage
pub mod Text
pub mod Auth
pub mod Gpio
pub mod Web
pub mod Meter
pub mod Boot
pub mod Bootloader
pub mod System
pub mod Xtask
