-- ===== src/Platform/Bootloader.antt =====
-- embassy-boot's bootloader, as bootloader/src/main.rs uses it, on the flash that the updater of
-- application/src/web/update.rs writes.
use cro_pduster.Prelude.{
  ℕ, ◌+◌, ◌*◌, ◌/◌, ◌%◌, ◌≤◌, ◌<◌, ◌≡◌, Bool, true, false, Option, some, Bytes,
}
use cro_pduster.Platform.Updater.{Updater}

pub record Range : Type 0 where
  pub offset : ℕ
  pub size : ℕ

pub record BootLoaderConfig : Type 0 where
  pub active : Range
  pub dfu : Range
  pub state : Range

pub record Bootloader (U : Updater) : Type 0 where
  -- The flash that `BootLoader::prepare` leaves, where it has not failed.
  pub prepare : BootLoaderConfig → U.Flash → Option U.Flash
  -- The bytes of the active partition, those that a revert puts back there, and whether the marked
  -- update has been swapped in.
  pub active : U.Flash → ℕ → ℕ
  pub replaced : U.Flash → ℕ → ℕ
  pub is_swapped : U.Flash → Bool

-- What `prepare` asserts of the partitions, in pages of 4096 bytes: the DFU partition has a page
-- more, and the state has room for the progress of the swap.
pub record IsLayout (c : BootLoaderConfig) : Type 0 where
  pub active_pages : c.active.size % 4096 ≡ 0
  pub dfu_pages : c.dfu.size % 4096 ≡ 0
  pub dfu_room : c.active.size + 4096 ≤ c.dfu.size
  pub state_room : 2 + 4 * (c.active.size / 4096) ≤ c.state.size

-- A marked update is swapped in; if it is still marked at the next start, since the application has
-- not called `mark_booted`, what it has replaced is put back. The updater takes no write while an
-- update is marked.
pub record IsBootloader (U : Updater) (L : Bootloader U) : Type 0 where
  pub prepare_unmarked :
      (c : BootLoaderConfig) (f : U.Flash)
      → IsLayout c
      → U.is_marked f ≡ false
      → L.prepare c f ≡ some f
  pub prepare_swaps :
      (c : BootLoaderConfig) (f : U.Flash)
      → IsLayout c
      → U.is_marked f ≡ true
      → L.is_swapped f ≡ false
      → (g : U.Flash) × (L.prepare c f ≡ some g)
        × (U.is_marked g ≡ true)
        × (L.is_swapped g ≡ true)
        × ((i : ℕ) → i < c.active.size → L.active g i ≡ U.dfu f i)
        × ((i : ℕ) → i < c.active.size → L.replaced g i ≡ L.active f i)
  pub prepare_reverts :
      (c : BootLoaderConfig) (f : U.Flash)
      → IsLayout c
      → U.is_marked f ≡ true
      → L.is_swapped f ≡ true
      → (g : U.Flash) × (L.prepare c f ≡ some g)
        × (U.is_marked g ≡ false)
        × ((i : ℕ) → i < c.active.size → L.active g i ≡ L.replaced f i)
  pub write_marked :
      (offset : ℕ) (block : Bytes) (f : U.Flash)
      → U.is_marked f ≡ true
      → U.write_firmware offset block f ≡ (false, f)
