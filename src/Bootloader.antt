-- ===== src/Bootloader.antt =====
-- bootloader/src/main.rs, with the partitions of bootloader/memory.x.
pub mod Layout
pub mod Starts
pub mod Pending
pub mod Revert
mod Examples
use cro_pduster.Prelude.{ℕ, ◌+◌, ◌-◌, ◌*◌, ◌%◌, ◌^◌, Option, none, some}
use cro_pduster.Platform.Updater.{Updater}
use cro_pduster.Platform.Bootloader.{BootLoaderConfig, Bootloader}

-- `ORIGIN` and `LENGTH` of the memories of the linker script.
abbrev pub boot2_origin : ℕ
boot2_origin = 0x10000000

abbrev pub state_origin : ℕ
state_origin = 0x10006000

abbrev pub state_length : ℕ
state_length = 4 * 1024

abbrev pub active_origin : ℕ
active_origin = 0x10007000

abbrev pub active_length : ℕ
active_length = 320 * 1024

abbrev pub dfu_origin : ℕ
dfu_origin = 0x10057000

abbrev pub dfu_length : ℕ
dfu_length = 324 * 1024

-- `BootLoaderConfig::from_linkerfile_blocking`: the partitions between the script's symbols.
abbrev pub from_linkerfile : BootLoaderConfig
from_linkerfile = record {
  active = record { offset = active_origin - boot2_origin; size = active_length };
  dfu = record { offset = dfu_origin - boot2_origin; size = dfu_length };
  state = record { offset = state_origin - boot2_origin; size = state_length };
}

-- embassy-rp's `FLASH_BASE`.
abbrev pub flash_base : ℕ
flash_base = 0x10000000

-- What the processor does next: it runs the firmware at an address, or it is reset.
pub data Ending : Type 0 where
  load : ℕ → Ending
  sys_reset : Ending

abbrev pub hard_fault : Ending
hard_fault = sys_reset

-- `udf` is an undefined instruction, and ends in the hard fault.
abbrev pub panic_handler : Ending
panic_handler = hard_fault

-- The number of the interrupt, from the register `SCB_ICSR`, is only for the message.
abbrev pub default_handler : ℕ → Ending
default_handler scb_icsr = panic_handler

module _ (U : Updater) (L : Bootloader U) where
  abbrev prepared : Option U.Flash → U.Flash → Ending × U.Flash
  prepared none f = (panic_handler, f)
  prepared (some g) f = (load ((flash_base + from_linkerfile.active.offset) % 2 ^ 32), g)

  -- `prepare` panics on an error of the flash.
  pub main : U.Flash → Ending × U.Flash
  main f = prepared (L.prepare from_linkerfile f) f
