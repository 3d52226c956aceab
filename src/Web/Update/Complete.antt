-- ===== src/Web/Update/Complete.antt =====
-- application/src/web/update.rs: which firmware is marked for the bootloader.
use cro_pduster.Prelude.{
  ℕ, ◌≡◌, refl, sym, ap, ◌∙◌, inl, inr, true, false, Option, Bytes, replicate, length-replicate,
  arith,
}
use cro_pduster.Platform.{Heapless, Sha2, Base64, Ekv}
use cro_pduster.Platform.Updater.{Updater, IsUpdater, Reader, IsStream}
use cro_pduster.Outcome.{Result, ok, err, panic, continue}
use cro_pduster.Web.Update.{erase_size, Transfer, update_service, mark_updated}
use cro_pduster.Web.Update.Blocks.{IsWritten, IsRun, write_blocks-IsRun}
use cro_pduster.Web.Update.Refusal.{IsAuthorized, request_cases}

module _ {U : Updater} {R : Reader} (L : IsUpdater U) (D : IsStream R) where
  -- The mark leaves the image as it is.
  IsWritten-mark :
      (offset n : ℕ) (t t' : Transfer U R)
      → IsWritten U R offset n t t'
      → IsWritten U R offset n t (mark_updated U R t').1
  IsWritten-mark offset n t t' w = record {
    received = w.received;
    length_received = w.length_received;
    taken = w.taken;
    dfu_image = λ i. L.dfu-mark t'.1 i ∙ w.dfu_image i;
  }

  marked_run :
      (n : ℕ) (t : Transfer U R) (p : Result Bytes (Unit {0}) × Transfer U R)
      → IsRun U R 0 n t p
      → let q = continue p.0 (λ _. mark_updated U R) p.1 in
        U.is_marked t.1 ≡ false → U.is_marked q.1.1 ≡ true → IsWritten U R 0 n t q.1
  marked_run n t (ok u, t') run m h = IsWritten-mark 0 n t t' (run.written refl)
  marked_run n t (err e, t') run m h = ground (arith, run.marked)
  marked_run n t (panic, t') run m h = absurd (run.no_panic refl)

  -- Whatever faults the flash and the connection have: if a request leaves the flash marked for the
  -- bootloader, where it was not, then it was an administrator's POST of a size in range, and as
  -- many bytes as it announced were taken from its body and stand in the DFU partition, padded with
  -- `0xFF` to a whole erase block, with the partition as it was behind them.
  pub update_marks_complete :
      (H : Heapless) (S : Sha2) (E : Ekv) (B : Base64) (d : E.Db) (method : Bytes)
      (auth_header : Option Bytes) (n : ℕ) (t : Transfer U R)
      → let p = update_service U R H S E B d method auth_header n t in
        U.is_marked t.1 ≡ false
        → U.is_marked p.1.1 ≡ true
        → IsAuthorized U R H S E B d method auth_header n × IsWritten U R 0 n t p.1
  update_marks_complete H S E B d method auth_header n t m h =
      elim (request_cases U R H S E B d method auth_header n t) [
        | inl (a, e) ↦
            let run =
              write_blocks-IsRun L D n 0 n (replicate erase_size 0) t (omega arith)
                (length-replicate {A = ℕ} erase_size 0) in
            (a, rw e (marked_run n t _ run m (ap (λ p. U.is_marked p.1.1) (sym e) ∙ h)))
        | inr e ↦ (let kept = ap (λ q. U.is_marked q.1) e.0 in absurd (ground (arith, kept)))
      ]
