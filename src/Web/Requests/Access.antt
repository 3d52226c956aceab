-- ===== src/Web/Requests/Access.antt =====
-- Who can change what by a request.
use cro_pduster.Prelude.{
  ℕ, ◌≡◌, ◌≢◌, ◌⊎◌, refl, ap, inl, inr, Bool, true, false, Option, Bytes, if◌then◌else◌, arith,
}
use cro_pduster.Outcome.{Result, is_ok, Result-cases, ok, err, panic}
use cro_pduster.Auth.{AuthUser, StatusCode, auth_user, admin_user}
use cro_pduster.Gpio.{Gpio, start}
use cro_pduster.Web.Admin.{PortNameResponse, handle_port_name_get}
use cro_pduster.Web.Routes.{
  Endpoint, index, status, sensors, password, create_user, reset, gpio_get, gpio_toggle, gpio_set,
  port_name_get, port_name_set, user_ports, delete_user, update, Found, no_path, no_method, handler,
  build_app,
}
use cro_pduster.Web.Update.Refusal.{request_cases}
use cro_pduster.Web.Requests.{
  Crates, Device, Request, Reply, Handler, with_user, with_admin, serve, handle_request,
  answer_request, restarts, dispatch, read_reply, name_json, end_reply,
}

module _ (C : Crates) where
  -- The answer hands out the state of an output, or says that something was done.
  abbrev pub is_served : Reply C → Bool
  is_served (Reply.state_json r) = true
  is_served (Reply.switch_json r) = true
  is_served (Reply.ok_json r) = true
  is_served Reply.resets = true
  is_served _ = false

  -- The request is not authenticated.
  abbrev pub HasNoUser : Request C → Device C → Type 0
  HasNoUser q w =
      (user : AuthUser) → auth_user C.heapless C.sha2 C.ekv C.base64 w.db q.auth_header ≢ ok user

  -- The device is as it was, and the answer gives nothing away.
  abbrev pub IsShut : Device C → Reply C × Device C → Type 0
  IsShut w p = (p.1 ≡ w) × (is_served p.0 ≡ false)

  user-IsShut :
      (q : Request C) (w : Device C) (f : AuthUser → Handler C)
      → HasNoUser q w
      → IsShut w (with_user C q f w)
  user-IsShut q w f h =
      elim (Result-cases (auth_user C.heapless C.sha2 C.ekv C.base64 w.db q.auth_header)) [
        | inl (u, e) ↦ absurd (h u e)
        | inr (inl (e, r)) ↦ rw r (refl, refl)
        | inr (inr r) ↦ rw r (refl, refl)
      ]

  admin-IsShut :
      (q : Request C) (w : Device C) (f : Handler C) → HasNoUser q w → IsShut w (with_admin C q f w)
  unfolding admin_user
  admin-IsShut q w f h =
      elim (Result-cases (auth_user C.heapless C.sha2 C.ekv C.base64 w.db q.auth_header)) [
        | inl (u, e) ↦ absurd (h u e)
        | inr (inl (e, r)) ↦ rw r (refl, refl)
        | inr (inr r) ↦ rw r (refl, refl)
      ]

  -- An administrator is an authenticated user.
  admin_user_is_user :
      (q : Request C) (w : Device C) (user : AuthUser)
      → admin_user C.heapless C.sha2 C.ekv C.base64 w.db q.auth_header ≡ ok user
      → auth_user C.heapless C.sha2 C.ekv C.base64 w.db q.auth_header ≡ ok user
  unfolding admin_user
  admin_user_is_user q w user h = ground arith

  name_shut :
      (r : Result Bytes PortNameResponse) → is_served (read_reply C (λ x. name_json x) r) ≡ false
  name_shut (ok a) = refl
  name_shut (err e) = refl
  name_shut panic = refl

  end_shut :
      (r : Result (StatusCode × Bytes) (Unit {0}))
      → is_ok r ≡ false
      → is_served (end_reply C r) ≡ false
  end_shut (ok u) h = cc
  end_shut (err e) h = refl
  end_shut panic h = refl

  reset_if :
      (b : Bool) (w : Device C)
      → let v = if b then record w { gpio = start C.signal } else w in
        (v.db ≡ w.db) × (v.firmware ≡ w.firmware) × ((v.gpio ≡ w.gpio) ⊎ (v.gpio ≡ start C.signal))
  reset_if true w = (refl, refl, inr refl)
  reset_if false w = (refl, refl, inl refl)

  -- Behind its handling a request changes nothing on the flash, and the outputs by a restart only.
  pub answered :
      (parse_u8 : Bytes → Option ℕ) (wait : Gpio C.signal → Gpio C.signal) (q : Request C)
      (w : Device C)
      → let v = (handle_request C parse_u8 wait q w).1 in
        let u = (answer_request C parse_u8 wait q w).1 in
        (u.db ≡ v.db) × (u.firmware ≡ v.firmware) × ((u.gpio ≡ v.gpio) ⊎ (u.gpio ≡ start C.signal))
  unfolding answer_request
  answered parse_u8 wait q w =
      let p = handle_request C parse_u8 wait q w in reset_if (restarts C p.0) p.1

  module _ (wait : Gpio C.signal → Gpio C.signal) (q : Request C) (w : Device C) where
    serve-IsShut : (e : Endpoint) → HasNoUser q w → IsShut w (serve C wait q e w)
    unfolding serve
    serve-IsShut index h = (refl, refl)
    serve-IsShut status h = (refl, refl)
    serve-IsShut sensors h = (refl, refl)
    serve-IsShut password h = user-IsShut q w _ h
    serve-IsShut create_user h = admin-IsShut q w _ h
    serve-IsShut reset h = admin-IsShut q w _ h
    serve-IsShut (gpio_get pin) h = user-IsShut q w _ h
    serve-IsShut (gpio_toggle pin) h = user-IsShut q w _ h
    serve-IsShut (gpio_set pin) h = user-IsShut q w _ h
    serve-IsShut (port_name_get port) h =
        (refl, name_shut (handle_port_name_get C.heapless C.ekv port w.db))
    serve-IsShut (port_name_set port) h = admin-IsShut q w _ h
    serve-IsShut (user_ports name) h = admin-IsShut q w _ h
    serve-IsShut (delete_user name) h = admin-IsShut q w _ h
    serve-IsShut (update m) h =
        elim (request_cases C.updater C.reader C.heapless C.sha2 C.ekv C.base64 w.db q.method_name
          q.auth_header q.content_length (q.body, w.firmware)) [
            | inl (a, _) ↦ absurd (h a.admin (admin_user_is_user q w a.admin a.admin_ok))
            | inr (kept, no_reset) ↦
                (ap (λ t. record w { firmware = t.1 }) kept, end_shut _ no_reset)
          ]

    dispatch-IsShut : (found : Found) → HasNoUser q w → IsShut w (dispatch C wait q found w)
    dispatch-IsShut no_path h = (refl, refl)
    dispatch-IsShut no_method h = (refl, refl)
    dispatch-IsShut (handler e) h = serve-IsShut e h

    -- Up to its reply a request without valid credentials changes nothing.
    pub anonymous-IsShut :
        (parse_u8 : Bytes → Option ℕ)
        → HasNoUser q w
        → IsShut w (handle_request C parse_u8 wait q w)
    unfolding handle_request
    anonymous-IsShut parse_u8 h = dispatch-IsShut (build_app parse_u8 q.method q.path) h
