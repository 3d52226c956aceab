-- ===== src/Bootloader/Pending.antt =====
-- application/src/web/update.rs, from the swap of an update until it is confirmed.
use cro_pduster.Prelude.{
  ℕ, zero, suc, ◌-◌, ◌<◌, ◌≡◌, min, refl, ap, inl, inr, true, false, Option, List, [], ◌∷◌, ◌++◌,
  Bytes, replicate, length-replicate, Option-cases, arith,
}
use cro_pduster.Platform.{Heapless, Sha2, Base64, Ekv}
use cro_pduster.Platform.Updater.{Updater, Reader, IsStream}
use cro_pduster.Platform.Bootloader.{Bootloader, IsBootloader}
use cro_pduster.Outcome.{is_ok, ◌>>◌}
use cro_pduster.Web.Update.{
  erase_size, Transfer, write_blocks, mark_updated, update_service, respond,
}
use cro_pduster.Web.Update.Blocks.{write_blocks-round, write_blocks-read_error}
use cro_pduster.Web.Update.Refusal.{request_cases}
use cro_pduster.Web.Update.Interleaving.{Upload}

-- The flash once the service has answered some requests, each with the database as it then is.
module _ (U : Updater) (R : Reader) (H : Heapless) (S : Sha2) (E : Ekv) (B : Base64) where
  abbrev pub serve_uploads : List (E.Db × Upload R.Stream) → U.Flash → U.Flash
  serve_uploads [] f = f
  serve_uploads ((d, u) ∷ us) f =
      serve_uploads us
        (update_service U R H S E B d u.method u.auth_header u.content_length (u.body, f)).1.1

module _ {U : Updater} {R : Reader} {L : Bootloader U} (D : IsStream R) (B : IsBootloader U L) where
  -- The first round fails, at the read or at the write.
  first_round_fails :
      (n : ℕ) (t : Transfer U R)
      → 0 < n
      → U.is_marked t.1 ≡ true
      → let p =
          respond U R (write_blocks U R n 0 n (replicate erase_size 0) >> mark_updated U R) t in
        (p.1.1 ≡ t.1) × (is_ok p.0 ≡ false)
  first_round_fails zero t h m = absurd (omega arith)
  first_round_fails (suc k) t h m =
      let n = min (suc k) erase_size in
      let zeros = length-replicate {A = ℕ} erase_size 0 in
      elim (Option-cases (R.read_exact n t.0).0) [
        | inl e ↦ rw (write_blocks-read_error U R k 0 k (replicate erase_size 0) t e) (refl, refl)
        | inr (v, e) ↦
            let w = B.write_marked 0 (v ++ replicate (4096 - n) 0xFF) t.1 m in
            rw
              (
                write_blocks-round U R k 0 k (replicate erase_size 0) v t zeros
                    (D.length-read n t.0 v e) e,
                w,
              )
              (refl, refl)
      ]

  module _ (H : Heapless) (S : Sha2) (E : Ekv) (C : Base64) where
    -- While an update is marked, also once it has been swapped in, no request to the service is
    -- answered as done, and none changes the flash.
    pub marked_refuses :
        (d : E.Db) (method : Bytes) (auth_header : Option Bytes) (n : ℕ) (t : Transfer U R)
        → U.is_marked t.1 ≡ true
        → let p = update_service U R H S E C d method auth_header n t in
          (p.1.1 ≡ t.1) × (is_ok p.0 ≡ false)
    marked_refuses d method auth_header n t m =
        elim (request_cases U R H S E C d method auth_header n t) [
          | inl (a, e) ↦ rw e (first_round_fails n t a.size_min m)
          | inr (same, fails) ↦ (ap (λ u. u.1) same, fails)
        ]

    pub serve_uploads-marked :
        (us : List (E.Db × Upload R.Stream)) (f : U.Flash)
        → U.is_marked f ≡ true
        → serve_uploads U R H S E C us f ≡ f
    serve_uploads-marked [] f m = refl
    serve_uploads-marked ((d, u) ∷ us) f m =
        let (same, fails) =
          marked_refuses d u.method u.auth_header u.content_length (u.body, f) m in
        rw same (serve_uploads-marked us f m)
