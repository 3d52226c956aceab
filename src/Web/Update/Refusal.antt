-- ===== src/Web/Update/Refusal.antt =====
-- application/src/web/update.rs: which requests the update service refuses.
use cro_pduster.Prelude.{
  ℕ, ◌≤◌, ◌<◌, ◌≡◌, ◌≢◌, ◌⊎◌, refl, inl, inr, Bool, true, false, not, ◌||◌, Option, Bytes, codes,
  replicate, length-replicate, ltb, ◌==◌, eq_bytes, eq_bytes→eq, eq_bytes_ne, eq_bytes_iff,
  Bool-cases, arith,
}
use native.Mathlib.Decide.{ℕ_discrete}
use cro_pduster.Platform.{Heapless, Sha2, Base64, Ekv}
use cro_pduster.Platform.Updater.{Updater, Reader}
use cro_pduster.Outcome.{Result, Result-cases, is_ok, ok, err, panic, ◌>>◌}
use cro_pduster.Config.{active_size}
use cro_pduster.Auth.{
  AuthUser, StatusCode, method_not_allowed, forbidden, internal_server_error, admin_user,
}
use cro_pduster.Web.Update.{
  erase_size, Transfer, write_blocks, write_firmware_streaming, update_service, mark_updated,
  respond,
}

abbrev pub post : Bytes
post = codes "POST"

-- The size that a body may announce.
abbrev pub fits_size : ℕ → Bool
fits_size n = not (n == 0 || ltb active_size n)

module _ (U : Updater) (R : Reader) (H : Heapless) (S : Sha2) (E : Ekv) (B : Base64) where
  wrong_method :
      (d : E.Db) (method : Bytes) (auth_header : Option Bytes) (n : ℕ) (t : Transfer U R)
      → method ≢ post
      → update_service U R H S E B d method auth_header n t
        ≡ (err (method_not_allowed, codes "Method Not Allowed"), t)
  unfolding update_service
  wrong_method d method auth_header n t h = rw (eq_bytes_ne method post h)

  not_admin :
      (d : E.Db) (auth_header : Option Bytes) (n : ℕ) (t : Transfer U R)
      → admin_user H S E B d auth_header ≡ err tt
      → update_service U R H S E B d post auth_header n t ≡ (err (forbidden, codes "Forbidden"), t)
  unfolding update_service
  not_admin d auth_header n t h = rw h

  login_panics :
      (d : E.Db) (auth_header : Option Bytes) (n : ℕ) (t : Transfer U R)
      → admin_user H S E B d auth_header ≡ panic
      → update_service U R H S E B d post auth_header n t ≡ (panic, t)
  unfolding update_service
  login_panics d auth_header n t h = rw h

  wrong_size :
      (d : E.Db) (auth_header : Option Bytes) (n : ℕ) (t : Transfer U R) (a : AuthUser)
      → admin_user H S E B d auth_header ≡ ok a
      → fits_size n ≡ false
      → update_service U R H S E B d post auth_header n t
        ≡ (err (internal_server_error, codes "Invalid firmware size"), t)
  unfolding update_service write_firmware_streaming
  wrong_size d auth_header n t a h g = rw h ground arith

  -- The loop, and then the mark.
  pub served :
      (d : E.Db) (auth_header : Option Bytes) (n : ℕ) (t : Transfer U R) (a : AuthUser)
      → admin_user H S E B d auth_header ≡ ok a
      → fits_size n ≡ true
      → U.aligned_size ≡ erase_size
      → update_service U R H S E B d post auth_header n t
        ≡ respond U R (write_blocks U R n 0 n (replicate erase_size 0) >> mark_updated U R) t
  unfolding update_service write_firmware_streaming
  served d auth_header n t a h g size =
      rw h ground (arith, size, length-replicate {A = ℕ} erase_size 0)

  -- The constructor of the updater panics on a buffer of another size than it wants.
  pub constructor_panics :
      (d : E.Db) (auth_header : Option Bytes) (n : ℕ) (t : Transfer U R) (a : AuthUser)
      → admin_user H S E B d auth_header ≡ ok a
      → fits_size n ≡ true
      → U.aligned_size ≢ erase_size
      → update_service U R H S E B d post auth_header n t ≡ (panic, t)
  unfolding update_service write_firmware_streaming
  constructor_panics d auth_header n t a h g size =
      rw h ground (arith, size, length-replicate {A = ℕ} erase_size 0)

  -- The request is an administrator's POST of a body with a size in range, on a flash whose updater
  -- takes the buffer.
  pub record IsAuthorized (d : E.Db) (method : Bytes) (auth_header : Option Bytes) (n : ℕ)
      : Type 0 where
    pub is_post : method ≡ post
    pub admin : AuthUser
    pub admin_ok : admin_user H S E B d auth_header ≡ ok admin
    pub size_min : 0 < n
    pub size_max : n ≤ active_size
    pub takes_buffer : U.aligned_size ≡ erase_size

  -- The transfer is as it was, and the chip is not reset.
  abbrev pub IsRefused :
      Transfer U R → Result (StatusCode × Bytes) (Unit {0}) × Transfer U R → Type 0
  IsRefused t p = (p.1 ≡ t) × (is_ok p.0 ≡ false)

  -- A request is served, or it is refused and the transfer is as it was.
  pub request_cases :
      (d : E.Db) (method : Bytes) (auth_header : Option Bytes) (n : ℕ) (t : Transfer U R)
      → (IsAuthorized d method auth_header n
          × (update_service U R H S E B d method auth_header n t
              ≡ respond U R
                  (write_blocks U R n 0 n (replicate erase_size 0) >> mark_updated U R)
                  t))
        ⊎ IsRefused t (update_service U R H S E B d method auth_header n t)
  request_cases d method auth_header n t = elim (Bool-cases (eq_bytes method post)) [
    | inr h ↦ inr (
        rw (wrong_method d method auth_header n t (ground (arith, eq_bytes_iff method post)))
          (refl, refl))
    | inl h ↦
        rw (eq_bytes→eq method post h) (elim (Result-cases (admin_user H S E B d auth_header)) [
          | inl (a, e) ↦ elim (Bool-cases (fits_size n)) [
            | inl g ↦ elim (ℕ_discrete U.aligned_size erase_size) [
              | yes size ↦ inl (
                record {
                  is_post = refl;
                  admin = a;
                  admin_ok = e;
                  size_min = ground arith;
                  size_max = ground arith;
                  takes_buffer = size;
                },
                served d auth_header n t a e g size,
              )
              | no size ↦ inr (rw (constructor_panics d auth_header n t a e g size) (refl, refl))
            ]
            | inr g ↦ inr (rw (wrong_size d auth_header n t a e g) (refl, refl))
          ]
          | inr (inl (u, e)) ↦ inr (rw (not_admin d auth_header n t e) (refl, refl))
          | inr (inr e) ↦ inr (rw (login_panics d auth_header n t e) (refl, refl))
        ])
  ]
