-- ===== src/System/Settings.antt =====
-- What is stored, and the firmware, over any life of the device without an administrator.
use cro_pduster.Prelude.{
  ℕ, ◌≡◌, ◌≢◌, refl, ap, ◌∙◌, inl, inr, Bool, true, false, Option, some, Bytes,
}
use cro_pduster.Platform.{IsAtomic}
use cro_pduster.Platform.Bootloader.{Bootloader, IsBootloader}
use cro_pduster.Outcome.{Result-cases, ok}
use cro_pduster.Storage.Keys.{user_pw_key}
use cro_pduster.Auth.{AuthUser, auth_user}
use cro_pduster.Boot.Mounted.{main_keeps}
use cro_pduster.Bootloader.Starts.{main-unmarked}
use cro_pduster.Web.Requests.{Crates, Device, Request, handle_request}
use cro_pduster.Web.Requests.Access.{anonymous-IsShut, answered}
use cro_pduster.Web.Requests.Own.{user_changes-IsOwn}
use cro_pduster.System.{after_request, SystemStep, request, poll, restart, SystemReach, here, next}

module _ (C : Crates) (parse_u8 : Bytes → Option ℕ) (L : IsAtomic C.ekv) {B : Bootloader C.updater}
    (BL : IsBootloader C.updater B) (j : Bytes) where
  record IsKept (w v : Device C) : Type 0 where
    stored_kept : C.ekv.stored v.db j ≡ C.ekv.stored w.db j
    firmware_kept : v.firmware ≡ w.firmware

  module _ {Sends : Request C → Device C → Type 0} {Restarts : Bool → Device C → Type 0}
      (plain : (q : Request C) (w : Device C) (user : AuthUser)
        → Sends q w
        → auth_user C.heapless C.sha2 C.ekv C.base64 w.db q.auth_header ≡ ok user
        → (user.is_admin ≡ false) × (user_pw_key C.heapless user.username ≢ some j))
      (mounts : (pin_low : Bool) (w : Device C)
        → Restarts pin_low w
        → (pin_low ≡ false) × ((C.ekv.mount w.db).0 ≡ true)) where
    handled-IsKept :
        (q : Request C) (w : Device C)
        → IsKept w (handle_request C parse_u8 (λ g. g) q w).1
        → IsKept w (after_request C parse_u8 q w)
    handled-IsKept q w kept =
        let (db, firmware, _) = answered C parse_u8 (λ g. g) q w in
        record {
          stored_kept = ap (λ x. C.ekv.stored x j) db ∙ kept.stored_kept;
          firmware_kept = firmware ∙ kept.firmware_kept;
        }

    anonymous-IsKept :
        (q : Request C) (w : Device C)
        → ((user : AuthUser)
            → auth_user C.heapless C.sha2 C.ekv C.base64 w.db q.auth_header ≢ ok user)
        → IsKept w (after_request C parse_u8 q w)
    anonymous-IsKept q w nobody =
        let (same, _) = anonymous-IsShut C (λ g. g) q w parse_u8 nobody in
        handled-IsKept q w (record { stored_kept = rw same; firmware_kept = rw same })

    request-IsKept :
        (q : Request C) (w : Device C) → Sends q w → IsKept w (after_request C parse_u8 q w)
    request-IsKept q w sent =
        elim (Result-cases (auth_user C.heapless C.sha2 C.ekv C.base64 w.db q.auth_header)) [
          | inl (user, e) ↦
              let (no_admin, other) = plain q w user sent e in
              let own = user_changes-IsOwn C L (λ g. g) q w parse_u8 user e no_admin in
              handled-IsKept q w
                (record { stored_kept = own.db_kept j other; firmware_kept = own.firmware_kept })
          | inr (inl (x, e)) ↦ anonymous-IsKept q w (λ user e'. cc (e, e'))
          | inr (inr e) ↦ anonymous-IsKept q w (λ user e'. cc (e, e'))
        ]

    step-IsKept :
        {w v : Device C}
        → SystemStep C parse_u8 B Sends Restarts w v
        → C.updater.is_marked w.firmware ≡ false
        → IsKept w v
    step-IsKept (request q w sent) m = request-IsKept q w sent
    step-IsKept (poll w) m = record { stored_kept = refl; firmware_kept = refl }
    step-IsKept (restart pin_low uid addr answers polls rounds w allowed) m =
        let (high, mounted) = mounts pin_low w allowed in
        record {
          stored_kept =
              rw (high, main-unmarked B BL w.firmware m)
                (main_keeps C.heapless C.sha2 L (Unit {0}) uid addr answers polls rounds w.db j
                  mounted);
          firmware_kept = rw (main-unmarked B BL w.firmware m);
        }

    reach-IsKept :
        {w v : Device C}
        → SystemReach C parse_u8 B Sends Restarts w v
        → C.updater.is_marked w.firmware ≡ false
        → IsKept w v
    reach-IsKept here m = record { stored_kept = refl; firmware_kept = refl }
    reach-IsKept (next r s) m =
        let before = reach-IsKept r m in
        let last = step-IsKept s (ap C.updater.is_marked before.firmware_kept ∙ m) in
        record {
          stored_kept = last.stored_kept ∙ before.stored_kept;
          firmware_kept = last.firmware_kept ∙ before.firmware_kept;
        }

    -- Whatever requests come and however they interleave with the relay task and with restarts, the
    -- bootloader included: the firmware stays, and so does every value that is stored, but for the
    -- password of a user that a request is authenticated as, as long as none is authenticated as an
    -- administrator. (No update is pending at the start. No restart has the factory reset pin held low,
    -- and the database mounts at each; the store is atomic.)
    pub settings_stay :
        {w v : Device C}
        → SystemReach C parse_u8 B Sends Restarts w v
        → C.updater.is_marked w.firmware ≡ false
        → (C.ekv.stored v.db j ≡ C.ekv.stored w.db j) × (v.firmware ≡ w.firmware)
    settings_stay r m = let kept = reach-IsKept r m in (kept.stored_kept, kept.firmware_kept)
