-- ===== src/Storage/Pages.antt =====
-- application/src/storage.rs: `PduFlash`, which gives ekv the pages of the CONFIG partition.
pub mod Layout
use cro_pduster.Prelude.{ℕ, ◌+◌, ◌-◌, ◌*◌, ◌%◌, ◌^◌, Bool, Option, Bytes}
use cro_pduster.Config.{config_start, ekv_page_size, ekv_page_count}
use cro_pduster.Platform.{NorFlash}

abbrev pub flash_base : ℕ
flash_base = 0x10000000

abbrev pub config_offset : ℕ
config_offset = config_start - flash_base

-- `u32` arithmetic wraps in a release build.
unfoldable pub page_offset : ℕ → ℕ
page_offset page = (config_offset + page % 2 ^ 32 * ekv_page_size % 2 ^ 32) % 2 ^ 32

abbrev pub page_count : ℕ
page_count = ekv_page_count

module _ (N : NorFlash) where
  unfoldable pub erase : ℕ → N.Flash → Bool × N.Flash
  unfolding page_offset
  erase page = let offset = page_offset page in N.erase offset ((offset + ekv_page_size) % 2 ^ 32)

  unfoldable pub read : ℕ → ℕ → ℕ → N.Flash → Option Bytes
  unfolding page_offset
  read page offset count =
      let flash_offset = (page_offset page + offset % 2 ^ 32) % 2 ^ 32 in N.read flash_offset count

  unfoldable pub write : ℕ → ℕ → Bytes → N.Flash → Bool × N.Flash
  unfolding page_offset
  write page offset bytes =
      let flash_offset = (page_offset page + offset % 2 ^ 32) % 2 ^ 32 in N.write flash_offset bytes
