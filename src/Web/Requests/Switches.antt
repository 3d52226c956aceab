-- ===== src/Web/Requests/Switches.antt =====
-- What a request does to the outputs: nothing, or what a switch of an authenticated user does.
use cro_pduster.Prelude.{ℕ, ◌≡◌, refl, inl, inr, Option, none, some, Bytes}
use cro_pduster.Outcome.{Result-cases, ok}
use cro_pduster.Auth.{AuthUser, auth_user, admin_user}
use cro_pduster.Gpio.{Gpio}
use cro_pduster.Web.Gpio.{SetBody, handle_gpio_set}
use cro_pduster.Web.Gpio.Steps.{Step, request_toggle, request_set}
use cro_pduster.Web.Routes.{
  Endpoint, index, status, sensors, password, create_user, reset, gpio_get, gpio_toggle, gpio_set,
  port_name_get, port_name_set, user_ports, delete_user, update, Found, no_path, no_method, handler,
  build_app,
}
use cro_pduster.Web.Requests.{
  Crates, Device, Request, Handler, with_user, with_admin, with_json, switched, serve, dispatch,
  handle_request,
}

module _ (C : Crates) (q : Request C) (w : Device C) where
  -- The request is authenticated as the user.
  abbrev pub IsFrom : ℕ → AuthUser → Type 0
  IsFrom pin user = auth_user C.heapless C.sha2 C.ekv C.base64 w.db q.auth_header ≡ ok user

  pub data IsSwitched (g : Gpio C.signal) : Type 0 where
    unswitched : g ≡ w.gpio → IsSwitched g
    switched_by : Step C.signal IsFrom w.gpio g → IsSwitched g

  user-IsSwitched :
      (f : AuthUser → Handler C)
      → ((user : AuthUser) → IsFrom 0 user → IsSwitched (f user w).1.gpio)
      → IsSwitched (with_user C q f w).1.gpio
  user-IsSwitched f h =
      elim (Result-cases (auth_user C.heapless C.sha2 C.ekv C.base64 w.db q.auth_header)) [
        | inl (user, e) ↦ rw e (h user e)
        | inr (inl (x, e)) ↦ rw e (unswitched refl)
        | inr (inr e) ↦ rw e (unswitched refl)
      ]

  admin-IsSwitched :
      (f : Handler C) → (f w).1.gpio ≡ w.gpio → IsSwitched (with_admin C q f w).1.gpio
  admin-IsSwitched f h =
      elim (Result-cases (admin_user C.heapless C.sha2 C.ekv C.base64 w.db q.auth_header)) [
        | inl (user, e) ↦ rw e (unswitched h)
        | inr (inl (x, e)) ↦ rw e (unswitched refl)
        | inr (inr e) ↦ rw e (unswitched refl)
      ]

  json_keeps :
      {A : Type 0} (body : Option A) (f : A → Handler C)
      → ((a : A) → (f a w).1.gpio ≡ w.gpio)
      → (with_json C body f w).1.gpio ≡ w.gpio
  json_keeps none f h = refl
  json_keeps (some a) f h = h a

  set-IsSwitched :
      (pin : ℕ) (user : AuthUser) (body : Option SetBody)
      → IsFrom pin user
      → IsSwitched
          (with_json C body
            (λ b. switched C (handle_gpio_set C.signal (λ g. g) pin user b))
            w).1.gpio
  set-IsSwitched pin user none from = unswitched refl
  set-IsSwitched pin user (some b) from = switched_by (request_set pin user b w.gpio from)

  serve-IsSwitched : (e : Endpoint) → IsSwitched (serve C (λ g. g) q e w).1.gpio
  unfolding serve
  serve-IsSwitched index = unswitched refl
  serve-IsSwitched status = unswitched refl
  serve-IsSwitched sensors = unswitched refl
  serve-IsSwitched (gpio_get pin) = user-IsSwitched _ (λ user from. unswitched refl)
  serve-IsSwitched (gpio_toggle pin) =
      user-IsSwitched _ (λ user from. switched_by (request_toggle pin user w.gpio from))
  serve-IsSwitched (gpio_set pin) =
      user-IsSwitched _ (λ user from. set-IsSwitched pin user q.set_json from)
  serve-IsSwitched (port_name_get port) = unswitched refl
  serve-IsSwitched (port_name_set port) =
      admin-IsSwitched _ (json_keeps q.port_name_json _ (λ body. refl))
  serve-IsSwitched password =
      user-IsSwitched _ (λ user from. unswitched (json_keeps q.password_json _ (λ body. refl)))
  serve-IsSwitched create_user = admin-IsSwitched _ (json_keeps q.user_json _ (λ body. refl))
  serve-IsSwitched (user_ports name) = admin-IsSwitched _ (json_keeps q.ports_json _ (λ body. refl))
  serve-IsSwitched (delete_user name) = admin-IsSwitched _ refl
  serve-IsSwitched reset = admin-IsSwitched _ refl
  serve-IsSwitched (update m) = unswitched refl

  dispatch-IsSwitched : (found : Found) → IsSwitched (dispatch C (λ g. g) q found w).1.gpio
  dispatch-IsSwitched no_path = unswitched refl
  dispatch-IsSwitched no_method = unswitched refl
  dispatch-IsSwitched (handler e) = serve-IsSwitched e

  -- Up to the wait of a switch, a request leaves the outputs and the waiting command alone, or does
  -- what the switch of an authenticated user does.
  pub request-IsSwitched :
      (parse_u8 : Bytes → Option ℕ) → IsSwitched (handle_request C parse_u8 (λ g. g) q w).1.gpio
  unfolding handle_request
  request-IsSwitched parse_u8 = dispatch-IsSwitched (build_app parse_u8 q.method q.path)
