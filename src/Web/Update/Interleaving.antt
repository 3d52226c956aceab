-- ===== src/Web/Update/Interleaving.antt =====
-- application/src/web/update.rs with several web tasks: uploads in any order, any number of them at
-- once (the firmware has four web tasks). Each has an updater of its own on the one DFU partition. A
-- step is a round of the loop, which waits for the body at its start only, or the mark. In the code
-- the mark follows the last round at once, and the reset ends all tasks soon after; the steps leave
-- both open, which only adds runs.
pub mod Sources
pub mod Rounds
pub mod Whole
mod Examples
use cro_pduster.Prelude.{ℕ, ◌+◌, ◌-◌, ◌≡◌, min, Option, Bytes, replicate, ◌==◌, if◌then◌else◌}
use cro_pduster.Platform.{Heapless, Sha2, Base64, Ekv}
use cro_pduster.Platform.Updater.{Updater, Reader}
use cro_pduster.Outcome.{Result, ok, err, panic}
use cro_pduster.Web.Update.{erase_size, Transfer, write_block, mark_updated}
use cro_pduster.Web.Update.Refusal.{IsAuthorized}

-- A request to the service.
pub record Upload (S : Type 0) : Type 0 where
  pub method : Bytes
  pub auth_header : Option Bytes
  pub content_length : ℕ
  pub body : S

-- Where the task of a request stands in `write_firmware_streaming`, with the variables of the loop.
pub data UploadTask (S : Type 0) : Type 0 where
  waiting : UploadTask S
  writing : (offset remaining : ℕ) (write_buf : Bytes) (body : S) → UploadTask S
  ended : Result Bytes (Unit {0}) → UploadTask S

-- The flash, and the task of each request by its number.
pub record Server (F S : Type 0) : Type 0 where
  pub flash : F
  pub tasks : ℕ → UploadTask S

abbrev pub set_task : {S : Type 0} → (ℕ → UploadTask S) → ℕ → UploadTask S → ℕ → UploadTask S
set_task tasks i t j = if i == j then t else tasks j

abbrev pub begin : {S : Type 0} → Upload S → UploadTask S
begin u = writing 0 u.content_length (replicate erase_size 0) u.body

module _ (U : Updater) (R : Reader) where
  abbrev pub after_block : ℕ → ℕ → Result Bytes Bytes × Transfer U R → UploadTask R.Stream × U.Flash
  after_block offset remaining (ok filled, (s, f)) =
      (writing (offset + erase_size) (remaining - min remaining erase_size) filled s, f)
  after_block offset remaining (err msg, (s, f)) = (ended (err msg), f)
  after_block offset remaining (panic, (s, f)) = (ended panic, f)

  abbrev pub after_mark : Result Bytes (Unit {0}) × Transfer U R → UploadTask R.Stream × U.Flash
  after_mark (r, (s, f)) = (ended r, f)

  pub step_task : UploadTask R.Stream → U.Flash → UploadTask R.Stream × U.Flash
  step_task waiting f = (waiting, f)
  step_task (writing offset remaining write_buf body) f =
      if remaining == 0
      then after_mark (mark_updated U R (body, f))
      else after_block offset remaining (write_block U R offset remaining write_buf (body, f))
  step_task (ended r) f = (ended r, f)

  abbrev pub stepped :
      Server U.Flash R.Stream → ℕ → UploadTask R.Stream × U.Flash → Server U.Flash R.Stream
  stepped s i (t, f) = record { flash = f; tasks = set_task s.tasks i t }

  abbrev pub all_waiting : U.Flash → Server U.Flash R.Stream
  all_waiting f = record { flash = f; tasks = λ i. waiting }

  module _ (H : Heapless) (S : Sha2) (E : Ekv) (B : Base64) (d : E.Db)
      (uploads : ℕ → Upload R.Stream) where
    -- Upload `i` passes the tests of the service.
    abbrev pub IsAccepted : ℕ → Type 0
    IsAccepted i =
        IsAuthorized U R H S E B d (uploads i).method (uploads i).auth_header
          (uploads i).content_length

    pub data Step (s : Server U.Flash R.Stream) : Server U.Flash R.Stream → Type 0 where
      accept :
          (i : ℕ)
          → IsAccepted i
          → s.tasks i ≡ waiting
          → Step s (stepped s i (begin (uploads i), s.flash))
      advance : (i : ℕ) → Step s (stepped s i (step_task (s.tasks i) s.flash))

    pub data Reach (s : Server U.Flash R.Stream) : Server U.Flash R.Stream → Type 0 where
      here : Reach s s
      next : {t u : Server U.Flash R.Stream} → Reach s t → Step t u → Reach s u
