-- ===== src/Bootloader/Revert.antt =====
-- bootloader/src/main.rs with application/src/web/update.rs: what is started after an update was
-- marked. No code of the firmware calls `mark_booted`.
use cro_pduster.Platform.Updater.{Updater}
use cro_pduster.Platform.Bootloader.{Bootloader}
