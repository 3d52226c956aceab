-- ===== src/Xtask/Plan/Examples.antt =====
-- The steps of commands at concrete inputs.
use cro_pduster.Prelude.{◌||◌, ◌≡◌, refl, true, false, none, [], ◌∷◌}
use cro_pduster.Xtask.Plan.{
  Command, dist, flash, bootloader_elf, application_debug_elf, build_bootloader, reset_probe,
  build_application_debug, flash_only_probe, attach_rtt_probe, BuildDir, steps, main,
}
use cro_pduster.Xtask.Plan.Order.{
  starts_safely, copies_application, all_find_files, main-starts_safely, steps_find_files,
}

abbrev empty_dir : BuildDir
empty_dir = record {
  exists = false;
  has_bootloader_elf = false;
  has_application_elf = false;
  has_application_debug_elf = false;
  has_bootloader_uf2 = false;
  has_application_uf2 = false;
  has_combined_uf2 = false;
}

flash_probe :
    steps (flash false true false true false none) empty_dir
    ≡ build_application_debug false
      ∷ flash_only_probe application_debug_elf
      ∷ build_bootloader
      ∷ flash_only_probe bootloader_elf
      ∷ reset_probe
      ∷ attach_rtt_probe application_debug_elf
      ∷ []
unfolding steps
flash_probe = refl

abbrev flash_application : Command
flash_application = flash false true false false false none

main-starts_safely_example :
    (starts_safely false (main (λ t. true) (λ s. true) flash_application empty_dir).0 ≡ false)
    × ((copies_application flash_application
          || starts_safely false (main (λ t. true) (λ s. false) flash_application empty_dir).0)
        ≡ true)
main-starts_safely_example = main-starts_safely (λ t. true) (λ s. false) flash_application empty_dir

steps_find_files_example :
    (all_find_files empty_dir (steps (dist false) empty_dir) ≡ true)
    × (all_find_files empty_dir (steps (flash true true false false false none) empty_dir) ≡ true)
steps_find_files_example = steps_find_files empty_dir true true false false false none
