-- ===== src/Web/Update/Constructor.antt =====
-- application/src/web/update.rs: the buffer of a whole erase block that `FirmwareUpdater::new` gets.
use cro_pduster.Prelude.{ℕ, ◌≡◌, false, inl, inr, Option, Bytes, arith}
use cro_pduster.Platform.{Heapless, Sha2, Base64, Ekv}
use cro_pduster.Platform.Updater.{Updater, IsByteFlash, Reader}
use cro_pduster.Outcome.{is_ok}
use cro_pduster.Web.Update.{Transfer, update_service}
use cro_pduster.Web.Update.Refusal.{request_cases}

-- Where the flash writes and reads single bytes, as the chip's does, no firmware update can succeed:
-- whatever request comes, with whatever credentials, nothing is taken from its body, the flash is as
-- it was, and the service does not end in its reset. (The constructor of the updater asserts that its
-- buffer is of the size of a write or a read.)
pub no_update_succeeds :
    (U : Updater) (R : Reader) (H : Heapless) (S : Sha2) (E : Ekv) (B : Base64)
    → IsByteFlash U
    → (d : E.Db) (method : Bytes) (auth_header : Option Bytes) (n : ℕ) (t : Transfer U R)
    → let p = update_service U R H S E B d method auth_header n t in (p.1 ≡ t) × (is_ok p.0 ≡ false)
no_update_succeeds U R H S E B byte d method auth_header n t =
    elim (request_cases U R H S E B d method auth_header n t) [
      | inl (a, e) ↦ absurd (omega (arith, a.takes_buffer, byte.aligned_byte))
      | inr refused ↦ refused
    ]
