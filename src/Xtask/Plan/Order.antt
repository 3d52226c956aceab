-- ===== src/Xtask/Plan/Order.antt =====
-- xtask/src/main.rs: the order of the steps of a command.
use cro_pduster.Prelude.{
  ◌≡◌, refl, ap, inl, inr, Bool, true, false, not, ◌&&◌, ◌||◌, Bool-cases, Option, none, some, List,
  [], ◌∷◌, Bytes, arith,
}
use cro_pduster.Xtask.Plan.{
  Command, build, combine, dist, flash, check_tools, clean, File, bootloader_elf, application_elf,
  application_debug_elf, bootloader_uf2, application_uf2, combined_uf2, Tool, Step,
  build_bootloader, combine_images, reset_probe, build_application, build_application_debug,
  flash_only_probe, attach_rtt_probe, flash_uf2, flash_ota, BuildDir, steps, run_steps, main,
}

-- Whether sector 0 of the flash holds the bootloader after a step, if it did or not before. The image
-- of an application has the second-stage boot code there, so its download, by a probe or as an UF2
-- file, erases the bootloader's; the bootloader's own image and the combined one bring it.
abbrev pub sector_0 : Step → Bool → Bool
sector_0 (flash_only_probe bootloader_elf) b = true
sector_0 (flash_only_probe application_elf) b = false
sector_0 (flash_only_probe application_debug_elf) b = false
sector_0 (flash_uf2 bootloader_uf2) b = true
sector_0 (flash_uf2 combined_uf2) b = true
sector_0 (flash_uf2 application_uf2) b = false
sector_0 s b = b

-- The chip starts at a reset by the probe, and by itself once it has taken an UF2 file.
abbrev pub may_start : Step → Bool → Bool
may_start reset_probe b = b
may_start (flash_uf2 file) b = sector_0 (flash_uf2 file) b
may_start s b = true

-- The chip never starts while the bootloader is missing.
abbrev pub starts_safely : Bool → List Step → Bool
starts_safely b [] = true
starts_safely b (s ∷ rest) = may_start s b && starts_safely (sector_0 s b) rest

prefix_safe :
    (works : Step → Bool) (b : Bool) (plan : List Step)
    → starts_safely b plan ≡ true
    → starts_safely b (run_steps works plan).0 ≡ true
prefix_safe works b [] h = refl
prefix_safe works b (s ∷ rest) h = ground (arith, prefix_safe works (sector_0 s b) rest)

-- The command copies the UF2 file of the application alone.
abbrev pub copies_application : Command → Bool
copies_application (flash bootloader true w6100 false debug none) = true
copies_application _ = false

steps_safe :
    (c : Command) (dir : BuildDir) → starts_safely false (steps c dir) ≡ not (copies_application c)
unfolding steps
steps_safe (build b a w) dir = ground arith
steps_safe combine dir = refl
steps_safe (dist w) dir = refl
steps_safe (flash b a w p d (some ip)) dir = ground arith
steps_safe (flash b a w true d none) dir = ground arith
steps_safe (flash b true w false d none) dir = ground arith
steps_safe (flash b false w false d none) dir = ground arith
steps_safe check_tools dir = refl
steps_safe clean dir = ground arith

all_run : (plan : List Step) → (run_steps (λ s. true) plan).0 ≡ plan
all_run [] = refl
all_run (s ∷ rest) = ap (λ r. s ∷ r) (all_run rest)

both_safe :
    (works : Step → Bool) (c : Command) (dir : BuildDir)
    → (starts_safely false (run_steps (λ s. true) (steps c dir)).0 ≡ not (copies_application c))
      × ((copies_application c || starts_safely false (run_steps works (steps c dir)).0) ≡ true)
both_safe works c dir = elim (Bool-cases (copies_application c)) [
  | inl e ↦ (rw (all_run (steps c dir)) (steps_safe c dir), rw e)
  | inr e ↦ (
    rw (all_run (steps c dir)) (steps_safe c dir),
    rw (e, prefix_safe works false (steps c dir) (rw e at (steps_safe c dir))),
  )
]

-- A command that runs all its steps starts the chip with the bootloader in place, each time, exactly
-- if it is not `flash --application` without a probe and over no network: the UF2 file of the
-- application takes the bootloader's sector, and the chip starts by itself. Whatever steps fail, the
-- other commands never start it without the bootloader.
pub main-starts_safely :
    (found : Tool → Bool) (works : Step → Bool) (c : Command) (dir : BuildDir)
    → (starts_safely false (main found (λ s. true) c dir).0 ≡ not (copies_application c))
      × ((copies_application c || starts_safely false (main found works c dir).0) ≡ true)
unfolding main
main-starts_safely found works check_tools dir = (refl, refl)
main-starts_safely found works (build b a w) dir = both_safe works (build b a w) dir
main-starts_safely found works combine dir = both_safe works combine dir
main-starts_safely found works (dist w) dir = both_safe works (dist w) dir
main-starts_safely found works (flash b a w p d o) dir = both_safe works (flash b a w p d o) dir
main-starts_safely found works clean dir = both_safe works clean dir

-- The files below build/ after a step that works.
abbrev pub built : Step → BuildDir → BuildDir
built build_bootloader dir = record dir {
  exists = true;
  has_bootloader_elf = true;
  has_bootloader_uf2 = true;
}
built (build_application w) dir = record dir {
  exists = true;
  has_application_elf = true;
  has_application_uf2 = true;
}
built (build_application_debug w) dir = record dir {
  exists = true;
  has_application_debug_elf = true;
}
built combine_images dir = record dir { has_combined_uf2 = true }
built s dir = dir

abbrev pub has_file : File → BuildDir → Bool
has_file bootloader_elf dir = dir.has_bootloader_elf
has_file application_elf dir = dir.has_application_elf
has_file application_debug_elf dir = dir.has_application_debug_elf
has_file bootloader_uf2 dir = dir.has_bootloader_uf2
has_file application_uf2 dir = dir.has_application_uf2
has_file combined_uf2 dir = dir.has_combined_uf2

-- The files that a step reads are there.
abbrev pub finds_files : Step → BuildDir → Bool
finds_files (flash_only_probe f) dir = has_file f dir
finds_files (attach_rtt_probe f) dir = has_file f dir
finds_files (flash_uf2 f) dir = has_file f dir
finds_files (flash_ota f ip) dir = has_file f dir
finds_files combine_images dir = dir.has_bootloader_elf && dir.has_application_elf
finds_files s dir = true

abbrev pub all_find_files : BuildDir → List Step → Bool
all_find_files dir [] = true
all_find_files dir (s ∷ rest) = finds_files s dir && all_find_files (built s dir) rest

-- Whatever files exist before, each step of `dist` and of `flash`, with any of its options, finds the
-- files that it reads, as the steps before it have built them or they were there.
pub steps_find_files :
    (dir : BuildDir) (bootloader application w6100 probe debug : Bool) (ota : Option Bytes)
    → (all_find_files dir (steps (dist w6100) dir) ≡ true)
      × (all_find_files dir (steps (flash bootloader application w6100 probe debug ota) dir) ≡ true)
unfolding steps
steps_find_files dir b a w p d (some ip) = (refl, ground arith)
steps_find_files dir b a w true d none = (refl, ground arith)
steps_find_files dir b a w false d none = (refl, ground arith)
