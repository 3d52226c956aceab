-- ===== src/Xtask/Drive/Examples.antt =====
-- Runs of the wait for the drive, and the theorems about it at concrete inputs.
use cro_pduster.Prelude.{
  ℕ, ◌*◌, ◌≡◌, refl, true, false, some, List, [], ◌∷◌, Bytes, codes, ltb, if◌then◌else◌,
}
use cro_pduster.Outcome.{Result, ok, err}
use cro_pduster.Xtask.Drive.{
  try_volume, wait_for_volume, Look, DriveError, timed_out, lines, split_from, find_mount,
  try_round, wait, wait_for_rpi_rp2, flash_uf2,
}
use cro_pduster.Xtask.Drive.Wait.{Ends, wait_for_rpi_rp2-Ends}
use cro_pduster.Xtask.Drive.Mounts.{Entry, print_mounts}

abbrev root : Entry
root = record { device = codes "/dev/sda1"; path = codes "/"; options = codes "ext4 rw 0 0" }

abbrev drive : Entry
drive = record {
  device = codes "/dev/sdb1";
  path = codes "/media/RPI-RP2";
  options = codes "vfat rw 0 0";
}

abbrev table : List Entry
table = root ∷ drive ∷ []

found_second :
    find_mount (codes "/dev/sdb1") (lines (print_mounts table)) ≡ some (codes "/media/RPI-RP2")
unfolding lines split_from
found_second = refl

-- The drive is plugged in after two rounds.
abbrev unplugged : Look
unplugged = record {
  exists = false;
  mounts = print_mounts (root ∷ []);
  real = [];
  makes_dir = true;
  has_shell = true;
  mount_works = false;
  takes = 1;
}

abbrev looks : ℕ → Look
looks i =
    if ltb i 2
    then unplugged
    else record unplugged { exists = true; mounts = print_mounts table; real = codes "/dev/sdb1" }

comes_late : wait_for_rpi_rp2 (codes "/tmp") looks 2 ≡ some (ok (codes "/media/RPI-RP2"))
unfolding wait_for_rpi_rp2 wait try_round lines split_from
comes_late = refl

never_comes : wait_for_rpi_rp2 (codes "/tmp") looks 1 ≡ some (err timed_out)
unfolding wait_for_rpi_rp2 wait try_round lines split_from
never_comes = refl

copied :
    flash_uf2 (codes "/tmp") looks (some (codes "combined.uf2")) (λ mount name. true)
    ≡ some (ok (codes "/media/RPI-RP2", codes "combined.uf2"))
unfolding flash_uf2 wait_for_rpi_rp2 wait try_round lines split_from
copied = refl

wait_for_rpi_rp2-Ends_example :
    ((r : Result DriveError Bytes) × (wait_for_rpi_rp2 (codes "/tmp") looks 2 ≡ some r)
      × Ends (λ i. try_round (codes "/tmp") (looks i)) (λ i. (looks i).takes) (1000 * 2) r)
    × ((r : Result DriveError Bytes) × (wait_for_volume (λ i. (looks i).exists) (λ i. 1) 2 ≡ some r)
        × Ends (λ i. try_volume (looks i).exists) (λ i. 1) (1000 * 2) r)
wait_for_rpi_rp2-Ends_example =
    wait_for_rpi_rp2-Ends (codes "/tmp") looks (λ i. (looks i).exists) (λ i. 1) 2
