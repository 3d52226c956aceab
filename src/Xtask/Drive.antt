-- ===== src/Xtask/Drive.antt =====
-- xtask/src/main.rs: the wait for the drive of a chip in its boot mode, and the copy to it.
-- What the system shows in each round is an argument. Times are in milliseconds.
pub mod Wait
pub mod Mounts
mod Examples
use cro_pduster.Prelude.{
  ℕ, zero, suc, ◌+◌, ◌*◌, Bool, true, false, not, ◌||◌, ◌&&◌, Option, none, some, List, [], ◌∷◌,
  ◌++◌, Bytes, codes, ltb, leb, ◌==◌, eq_bytes, if◌then◌else◌,
}
use cro_pduster.Text.{is_whitespace}
use cro_pduster.Outcome.{Result, ok, err, panic, ok_or, reject}
use cro_pduster.Outcome.Chain.{◌>>=◌, ◌>>◌}

-- `str::lines`. (A `\r` before the end of a line stays: it is white space.)
abbrev in_first : ℕ → List Bytes → List Bytes
in_first c [] = (c ∷ []) ∷ []
in_first c (l ∷ ls) = (c ∷ l) ∷ ls

unfoldable pub lines : Bytes → List Bytes
lines [] = []
lines (c ∷ cs) = let rest = lines cs in if c == b'\n' then [] ∷ rest else in_first c rest

-- `str::split_whitespace`, with the part that has begun.
abbrev pub flush : Bytes → List Bytes → List Bytes
flush [] parts = parts
flush (c ∷ cs) parts = (c ∷ cs) ∷ parts

unfoldable pub split_from : Bytes → Bytes → List Bytes
split_from part [] = flush part []
split_from part (c ∷ cs) = elim (is_whitespace c) [
  | true ↦ flush part (split_from [] cs)
  | false ↦ split_from (part ++ (c ∷ [])) cs
]

abbrev pub split_whitespace : Bytes → List Bytes
split_whitespace line = split_from [] line

-- The mount point in a line for the device.
abbrev pub mount_point : Bytes → List Bytes → Option Bytes
mount_point device [] = none
mount_point device (part ∷ []) = none
mount_point device (part ∷ second ∷ parts) = if eq_bytes part device then some second else none

-- The loop over the lines of /proc/mounts.
abbrev pub find_mount : Bytes → List Bytes → Option Bytes
find_mount device [] = none
find_mount device (line ∷ rest) = elim (mount_point device (split_whitespace line)) [
  | none ↦ find_mount device rest
  | some path ↦ some path
]

-- What a round sees: whether the label exists, the text of /proc/mounts and the device's path (empty
-- where they cannot be read), whether a directory can be made, a shell can be had, and `mount` works;
-- and how long this takes.
pub record Look : Type 0 where
  pub exists : Bool
  pub mounts : Bytes
  pub real : Bytes
  pub makes_dir : Bool
  pub has_shell : Bool
  pub mount_works : Bool
  pub takes : ℕ

pub data DriveError : Type 0 where
  io_error timed_out : DriveError

-- `tempfile_mountpoint`, below the directory for temporary files.
abbrev pub tempfile_mountpoint : Bytes → Bytes
tempfile_mountpoint temp_dir = temp_dir ++ codes "/rpi-rp2-mount"

abbrev or_mount : Bytes → Look → Option (Result DriveError Bytes)
or_mount temp_dir l =
    if not l.makes_dir || not l.has_shell
    then some (err io_error)
    else if l.mount_works
    then some (ok (tempfile_mountpoint temp_dir))
    else none

-- The body of the loop: how the function returns, if it does.
unfoldable pub try_round : Bytes → Look → Option (Result DriveError Bytes)
unfolding lines split_from
try_round temp_dir l =
    if l.exists
    then (elim (find_mount l.real (lines l.mounts)) [
      | some path ↦ some (ok path)
      | none ↦ or_mount temp_dir l
    ])
    else none

-- `thread::sleep` between the rounds.
abbrev pub sleep_ms : ℕ
sleep_ms = 500

-- The loop from round `i` on, which begins at `now`: `attempt` is what its body returns, if it does,
-- and `takes` how long that takes. `none` is that the fuel is used up.
pub wait :
    ℕ
    → (ℕ → Option (Result DriveError Bytes))
    → (ℕ → ℕ)
    → ℕ
    → ℕ
    → ℕ
    → Option (Result DriveError Bytes)
wait zero attempt takes deadline now i = none
wait (suc fuel) attempt takes deadline now i =
    let rest = wait fuel attempt takes deadline (now + takes i + sleep_ms) (suc i) in
    if ltb now deadline
    then (elim (attempt i) [ some r ↦ some r | none ↦ rest ])
    else some (err timed_out)

-- Two rounds a second at most, and the test that ends the loop.
abbrev pub wait_for :
    (ℕ → Option (Result DriveError Bytes)) → (ℕ → ℕ) → ℕ → Option (Result DriveError Bytes)
wait_for attempt takes timeout_secs =
    wait (suc (2 * timeout_secs)) attempt takes (1000 * timeout_secs) 0 0

-- On Linux.
pub wait_for_rpi_rp2 : Bytes → (ℕ → Look) → ℕ → Option (Result DriveError Bytes)
unfolding wait try_round
wait_for_rpi_rp2 temp_dir looks timeout_secs =
    wait_for (λ i. try_round temp_dir (looks i)) (λ i. (looks i).takes) timeout_secs

-- On macOS, by whether the volume exists in each round.
abbrev pub try_volume : Bool → Option (Result DriveError Bytes)
try_volume exists = if exists then some (ok (codes "/Volumes/RPI-RP2")) else none

pub wait_for_volume : (ℕ → Bool) → (ℕ → ℕ) → ℕ → Option (Result DriveError Bytes)
unfolding wait
wait_for_volume exists takes timeout_secs = wait_for (λ i. try_volume (exists i)) takes timeout_secs

-- `flash_uf2`: the directory and the name of the copy, if the file's name is there and it can be
-- written.
pub flash_uf2 :
    Bytes
    → (ℕ → Look)
    → Option Bytes
    → (Bytes → Bytes → Bool)
    → Option (Result DriveError (Bytes × Bytes))
unfolding wait_for_rpi_rp2
flash_uf2 temp_dir looks file_name copy_works = elim (wait_for_rpi_rp2 temp_dir looks 60) [
  | none ↦ none
  | some r ↦ some (do
    mount ← r
    filename ← ok_or io_error file_name
    reject (not (copy_works mount filename)) io_error
    ok (mount, filename))
]
