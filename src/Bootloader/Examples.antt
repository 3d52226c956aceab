-- ===== src/Bootloader/Examples.antt =====
-- The theorems about the starts after an update at concrete inputs.
use cro_pduster.Prelude.{◌≡◌, refl, true, false, [], ◌∷◌, Bytes}
use cro_pduster.Platform.Memory.{heapless, sha2, base64, ekv}
use cro_pduster.Platform.Partition.{reader, reader-IsStream}
use cro_pduster.Platform.Swap.{Swap, swap_updater, bootloader-IsBootloader}
use cro_pduster.Outcome.{is_ok}
use cro_pduster.Web.Update.{Transfer, update_service}
use cro_pduster.Web.Update.Refusal.{post}
use cro_pduster.Web.Update.Examples.{accounts, header}
use cro_pduster.Web.Update.Interleaving.{Upload}
use cro_pduster.Bootloader.Pending.{marked_refuses}

-- The running firmware is of sevens.
abbrev flash : Swap
flash = record { active = λ i. 7; dfu = λ i. 0xFF; old = λ i. 0; marked = false; swapped = false }

abbrev next_upload : Upload Bytes
next_upload = record { method = post; auth_header = header; content_length = 2; body = 8 ∷ 9 ∷ [] }

-- The update that is marked is of nines.
abbrev marked_flash : Swap
marked_flash = record flash { dfu = λ i. 9; marked = true }

abbrev updated : Transfer swap_updater reader
updated = (8 ∷ 9 ∷ [], record flash { marked = true })

second_upload_refused :
    let p =
      update_service swap_updater reader heapless sha2 ekv base64 accounts post header 2 updated in
    (p.1.1 ≡ updated.1) × (is_ok p.0 ≡ false)
second_upload_refused =
    marked_refuses reader-IsStream bootloader-IsBootloader heapless sha2 ekv base64 accounts post
      header 2 updated refl
