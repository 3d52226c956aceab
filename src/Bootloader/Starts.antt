-- ===== src/Bootloader/Starts.antt =====
-- bootloader/src/main.rs: a start without an update, and with one that waits or has been swapped in.
use cro_pduster.Prelude.{ℕ, ◌<◌, ◌≡◌, refl, true, false}
use cro_pduster.Platform.Updater.{Updater}
use cro_pduster.Platform.Bootloader.{Bootloader, IsBootloader}
use cro_pduster.Config.{active_start, active_size}
use cro_pduster.Bootloader.{load, main, from_linkerfile}
use cro_pduster.Bootloader.Layout.{from_linkerfile-IsLayout}

module _ {U : Updater} (L : Bootloader U) (B : IsBootloader U L) where
  -- A start that swaps a marked update in, and one that puts back what it has replaced.
  pub main-swaps :
      (f : U.Flash)
      → U.is_marked f ≡ true
      → L.is_swapped f ≡ false
      → let g = (main U L f).1 in
        ((main U L f).0 ≡ load active_start)
        × (U.is_marked g ≡ true)
        × (L.is_swapped g ≡ true)
        × ((i : ℕ) → i < active_size → L.active g i ≡ U.dfu f i)
        × ((i : ℕ) → i < active_size → L.replaced g i ≡ L.active f i)
  unfolding main
  main-swaps f m s =
      let (g, e, marked, swapped, new, old) =
        B.prepare_swaps from_linkerfile f from_linkerfile-IsLayout m s in
      rw e (refl, marked, swapped, new, old)

  pub main-reverts :
      (f : U.Flash)
      → U.is_marked f ≡ true
      → L.is_swapped f ≡ true
      → let g = (main U L f).1 in
        ((main U L f).0 ≡ load active_start)
        × (U.is_marked g ≡ false)
        × ((i : ℕ) → i < active_size → L.active g i ≡ L.replaced f i)
  unfolding main
  main-reverts f m s =
      let (g, e, unmarked, old) =
        B.prepare_reverts from_linkerfile f from_linkerfile-IsLayout m s in
      rw e (refl, unmarked, old)

  pub main-unmarked : (f : U.Flash) → U.is_marked f ≡ false → main U L f ≡ (load active_start, f)
  unfolding main
  main-unmarked f m = rw (B.prepare_unmarked from_linkerfile f from_linkerfile-IsLayout m)
