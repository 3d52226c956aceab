-- ===== src/Web/Update/Examples.antt =====
-- The theorems about updates at concrete inputs.
use cro_pduster.Prelude.{◌≡◌, refl, true, false, some, Option, [], ◌∷◌, Bytes, codes, arith}
use cro_pduster.Platform.Memory.{heapless, sha2, base64, ekv}
use cro_pduster.Platform.Partition.{updater, updater-IsUpdater, reader, reader-IsStream}
use cro_pduster.Outcome.{is_ok}
use cro_pduster.Text.{eq_ignore_ascii_case, is_utf8, find}
use cro_pduster.Storage.Keys.{user_admin_key, user_ports_key, user_pw_key}
use cro_pduster.Storage.UserEntries.{user_entries}
use cro_pduster.Auth.{credentials, verify, auth_user, admin_user}
use cro_pduster.Platform.Updater.{Updater}
use cro_pduster.Web.Update.{Transfer, update_service, write_firmware_streaming, write_blocks}
use cro_pduster.Web.Update.Constructor.{no_update_succeeds}
use cro_pduster.Web.Update.Blocks.{IsWritten}
use cro_pduster.Web.Update.Refusal.{post, IsAuthorized}
use cro_pduster.Web.Update.Complete.{update_marks_complete}

abbrev pub accounts : ekv.Db
accounts = user_entries (codes "bob") (codes "1") (5 ∷ []) (sha2.sha256 (codes "secret"))

abbrev pub header : Option Bytes
header = some (codes "Basic bob:secret")

abbrev before : Transfer updater reader
before = (1 ∷ 2 ∷ 3 ∷ 4 ∷ [], (λ i. 7, false))

pub authorized : IsAuthorized updater reader heapless sha2 ekv base64 accounts post header 3
unfolding admin_user auth_user credentials verify eq_ignore_ascii_case is_utf8 find user_pw_key
    user_admin_key user_ports_key
authorized = record {
  is_post = refl;
  admin = record { username = codes "bob"; is_admin = true; allowed_ports = 5 };
  admin_ok = refl;
  size_min = omega arith;
  size_max = omega arith;
  takes_buffer = refl;
}

-- The same connection to a flash of single bytes.
abbrev byte_updater : Updater
byte_updater = record updater { aligned_size = 1 }

no_update_succeeds_example :
    let p =
      update_service byte_updater reader heapless sha2 ekv base64 accounts post header 3 before in
    (p.1 ≡ before) × (is_ok p.0 ≡ false)
no_update_succeeds_example =
    no_update_succeeds byte_updater reader heapless sha2 ekv base64 (record { aligned_byte = refl })
      accounts post header 3 before

marked_after :
    (update_service updater reader heapless sha2 ekv base64 accounts post header 3 before).1.1.1
    ≡ true
unfolding update_service write_firmware_streaming write_blocks admin_user auth_user credentials
    verify eq_ignore_ascii_case is_utf8 find user_pw_key user_admin_key user_ports_key
marked_after = refl

update_marks_complete_example :
    IsAuthorized updater reader heapless sha2 ekv base64 accounts post header 3
    × IsWritten updater reader 0 3 before
        (update_service updater reader heapless sha2 ekv base64 accounts post header 3 before).1
update_marks_complete_example =
    update_marks_complete updater-IsUpdater reader-IsStream heapless sha2 ekv base64 accounts post
      header 3 before refl marked_after
