-- ===== src/Xtask/Ota/EndToEnd.antt =====
-- xtask/src/main.rs and application/src/web/update.rs: the upload of the tool meets the service of the
-- firmware.
use cro_pduster.Prelude.{true, codes}
use cro_pduster.Platform.Updater.{Updater}
use cro_pduster.Auth.{AuthUser}

abbrev pub administrator : AuthUser
administrator = record { username = codes "admin"; is_admin = true; allowed_ports = 255 }
