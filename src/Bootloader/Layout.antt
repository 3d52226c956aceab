-- ===== src/Bootloader/Layout.antt =====
-- bootloader/memory.x: the partitions fit each other, and the constants of the other programs.
use cro_pduster.Prelude.{◌+◌, ◌≤◌, ◌≡◌, refl, arith}
use cro_pduster.Platform.Bootloader.{IsLayout}
use cro_pduster.Config.{active_start, active_size, dfu_start, dfu_size, config_start}
use cro_pduster.Bootloader.{from_linkerfile, flash_base}

pub from_linkerfile-IsLayout : IsLayout from_linkerfile
from_linkerfile-IsLayout = record {
  active_pages = refl;
  dfu_pages = refl;
  dfu_room = omega arith;
  state_room = omega arith;
}

-- The layout of application/src/config.rs, and the partitions one behind the other.
config_agrees :
    (flash_base + from_linkerfile.active.offset ≡ active_start)
    × (from_linkerfile.active.size ≡ active_size)
    × (flash_base + from_linkerfile.dfu.offset ≡ dfu_start)
    × (from_linkerfile.dfu.size ≡ dfu_size)
    × (from_linkerfile.state.offset + from_linkerfile.state.size ≤ from_linkerfile.active.offset)
    × (active_start + active_size ≤ dfu_start)
    × (dfu_start + dfu_size ≤ config_start)
config_agrees = (refl, refl, refl, refl, omega arith, omega arith, omega arith)
