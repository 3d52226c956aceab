-- ===== src/Xtask/Plan.antt =====
-- xtask/src/main.rs: what each command does, as the list of its steps. Each step but the checks of
-- tools has `?` behind it, so a step that fails is the last one.
pub mod Order
mod Examples
use cro_pduster.Prelude.{
  Bool, true, false, not, ◌&&◌, ◌||◌, Option, none, some, List, [], ◌∷◌, ◌++◌, Bytes, if◌then◌else◌,
}

pub data Command : Type 0 where
  -- `--bootloader`, `--application`, `--w6100`
  build : Bool → Bool → Bool → Command
  combine : Command
  dist : Bool → Command
  -- `--bootloader`, `--application`, `--w6100`, `--probe`, `--debug`, `--ota`
  flash : Bool → Bool → Bool → Bool → Bool → Option Bytes → Command
  check_tools clean : Command

pub data File : Type 0 where
  bootloader_elf application_elf application_debug_elf : File
  bootloader_uf2 application_uf2 combined_uf2 : File

pub data Tool : Type 0 where
  elf2uf2_rs flip_link probe_rs : Tool

pub data Step : Type 0 where
  build_bootloader combine_images reset_probe : Step
  build_application build_application_debug : Bool → Step
  flash_only_probe attach_rtt_probe flash_uf2 : File → Step
  flash_ota : File → Bytes → Step
  clean_bootloader clean_application remove_build_dir : Step

-- The files below build/ that exist, and whether build/ does.
pub record BuildDir : Type 0 where
  pub exists : Bool
  pub has_bootloader_elf : Bool
  pub has_application_elf : Bool
  pub has_application_debug_elf : Bool
  pub has_bootloader_uf2 : Bool
  pub has_application_uf2 : Bool
  pub has_combined_uf2 : Bool

abbrev when : Bool → List Step → List Step
when b steps = if b then steps else []

-- The application is downloaded before the bootloader, which restores the sector that they share.
abbrev probe_application : File → Step → List Step
probe_application app_elf build_app =
    build_app
    ∷ flash_only_probe app_elf
    ∷ build_bootloader
    ∷ flash_only_probe bootloader_elf
    ∷ reset_probe
    ∷ attach_rtt_probe app_elf
    ∷ []

abbrev probe_steps : Bool → Bool → Bool → Bool → List Step
probe_steps bootloader application w6100 use_debug_build =
    let app_elf = if use_debug_build then application_debug_elf else application_elf in
    let build_app =
      if use_debug_build then build_application_debug w6100 else build_application w6100 in
    if not bootloader && not application
    then probe_application app_elf build_app
    else when bootloader (build_bootloader ∷ flash_only_probe bootloader_elf ∷ reset_probe ∷ [])
      ++ when application (probe_application app_elf build_app)

abbrev uf2_steps : Bool → Bool → Bool → BuildDir → List Step
uf2_steps bootloader application w6100 dir =
    if not bootloader && not application
    then when (not dir.has_combined_uf2)
        (build_bootloader ∷ build_application w6100 ∷ combine_images ∷ [])
      ++ (flash_uf2 combined_uf2 ∷ [])
    else when bootloader (
        when (not dir.has_bootloader_uf2) (build_bootloader ∷ [])
        ++ (flash_uf2 bootloader_uf2 ∷ []))
      ++ when application (
          when (not dir.has_application_uf2) (build_application w6100 ∷ [])
          ++ (flash_uf2 application_uf2 ∷ []))

unfoldable pub steps : Command → BuildDir → List Step
steps (build bootloader application w6100) dir =
    let both = not bootloader && not application in
    when (both || bootloader) (build_bootloader ∷ [])
    ++ when (both || application) (build_application w6100 ∷ [])
steps combine dir = combine_images ∷ []
steps (dist w6100) dir = build_bootloader ∷ build_application w6100 ∷ combine_images ∷ []
steps (flash bootloader application w6100 probe debug (some ip)) dir =
    when (not dir.has_application_uf2) (build_application w6100 ∷ [])
    ++ (flash_ota application_uf2 ip ∷ [])
steps (flash bootloader application w6100 true debug none) dir =
    probe_steps bootloader application w6100 (debug || true)
steps (flash bootloader application w6100 false debug none) dir =
    uf2_steps bootloader application w6100 dir
steps check_tools dir = []
steps clean dir = clean_bootloader ∷ clean_application ∷ when dir.exists (remove_build_dir ∷ [])

-- The steps that run, up to and with the first that fails, and whether all did well.
abbrev pub run_steps : (Step → Bool) → List Step → List Step × Bool
run_steps works [] = ([], true)
run_steps works (s ∷ rest) =
    let (ran, done) = run_steps works rest in if works s then (s ∷ ran, done) else (s ∷ [], false)

-- `check_tool`: whether a tool is found is what it returns; the rest of it is messages.
abbrev pub check_tool : (Tool → Bool) → Tool → Bool
check_tool found name = if found name then true else false

-- `CheckTools`: all three are looked for, and the first two are required.
pub tools_ok : (Tool → Bool) → Bool
tools_ok found = check_tool found elf2uf2_rs && check_tool found flip_link

-- `main`: the steps that ran, and whether the command ended well.
pub main : (Tool → Bool) → (Step → Bool) → Command → BuildDir → List Step × Bool
unfolding steps tools_ok
main found works check_tools dir = ([], tools_ok found)
main found works (build b a w) dir = run_steps works (steps (build b a w) dir)
main found works combine dir = run_steps works (steps combine dir)
main found works (dist w) dir = run_steps works (steps (dist w) dir)
main found works (flash b a w p d o) dir = run_steps works (steps (flash b a w p d o) dir)
main found works clean dir = run_steps works (steps clean dir)
