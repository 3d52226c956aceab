-- ===== src/Platform/Swap.antt =====
-- A flash in memory with an active and a DFU partition: values that meet the laws of
-- Platform.Updater and Platform.Bootloader.
use cro_pduster.Prelude.{
  ℕ, ◌+◌, ◌-◌, refl, Bool, true, false, some, Bytes, length, get_or, leb, ltb, ◌&&◌, if◌then◌else◌,
}
use cro_pduster.Platform.Updater.{Updater}
use cro_pduster.Platform.Bootloader.{Bootloader, IsBootloader}

-- `old` is what the active partition held before the swap.
pub record Swap : Type 0 where
  pub active : ℕ → ℕ
  pub dfu : ℕ → ℕ
  pub old : ℕ → ℕ
  pub marked : Bool
  pub swapped : Bool

abbrev written : ℕ → Bytes → (ℕ → ℕ) → ℕ → ℕ
written offset block old i =
    if leb offset i && ltb i (offset + length block) then get_or block (i - offset) 0 else old i

abbrev write : ℕ → Bytes → Swap → Bool × Swap
write offset block f =
    if f.marked then (false, f) else (true, record f { dfu = written offset block f.dfu })

abbrev mark : Swap → Bool × Swap
mark f = if f.marked then (true, f) else (true, record f { marked = true; swapped = false })

abbrev swap : Swap → Swap
swap f =
    if f.marked
    then (if f.swapped
        then record f { active = f.old; marked = false }
        else record f { active = f.dfu; dfu = f.active; old = f.active; swapped = true })
    else f

abbrev pub swap_updater : Updater
swap_updater = record {
  Flash = Swap;
  aligned_size = 4096;
  write_firmware = write;
  mark_updated = mark;
  dfu = λ f. f.dfu;
  is_marked = λ f. f.marked;
}

abbrev pub bootloader : Bootloader swap_updater
bootloader = record {
  prepare = λ c f. some (swap f);
  active = λ f. f.active;
  replaced = λ f. f.old;
  is_swapped = λ f. f.swapped;
}

pub bootloader-IsBootloader : IsBootloader swap_updater bootloader
bootloader-IsBootloader = record {
  prepare_unmarked = λ c f l m. rw m;
  prepare_swaps =
      λ c f l m s. (swap f, refl, rw (m, s), rw (m, s), λ i b. rw (m, s), λ i b. rw (m, s));
  prepare_reverts = λ c f l m s. (swap f, refl, rw (m, s), λ i b. rw (m, s));
  write_marked = λ offset block f m. rw m;
}
