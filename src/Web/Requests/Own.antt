-- ===== src/Web/Requests/Own.antt =====
-- What a user without administrator rights can change by a request.
use cro_pduster.Prelude.{
  ℕ, ◌≡◌, ◌≢◌, ◌⊎◌, ◌<◌, refl, ap, inl, inr, true, false, not, ◌||◌, Option, none, some, Bytes, leb,
  Bool-cases, arith,
}
use cro_pduster.Platform.{IsAtomic}
use cro_pduster.Outcome.{ok, err}
use cro_pduster.Storage.Keys.{user_pw_key}
use cro_pduster.Auth.{AuthUser, auth_user, admin_user}
use cro_pduster.Gpio.{Gpio}
use cro_pduster.Web.Gpio.{SetBody, is_allowed, handle_gpio_toggle, handle_gpio_set}
use cro_pduster.Web.Admin.Own.{password_change_keeps}
use cro_pduster.Web.Update.Refusal.{request_cases}
use cro_pduster.Web.Routes.{
  Endpoint, index, status, sensors, password, create_user, reset, gpio_get, gpio_toggle, gpio_set,
  port_name_get, port_name_set, user_ports, delete_user, update, Found, no_path, no_method, handler,
  build_app,
}
use cro_pduster.Web.Requests.{
  Crates, Device, Request, Handler, with_admin, with_json, switched, serve, handle_request,
  dispatch,
}

module _ (C : Crates) where
  -- The user may switch the output, and the request is for that.
  pub record IsSwitch (user : AuthUser) (found : Found) : Type 0 where
    pub pin : ℕ
    pub in_range : pin < 8
    pub may : is_allowed user.allowed_ports pin ≡ true
    pub asked : (found ≡ handler (gpio_toggle pin)) ⊎ (found ≡ handler (gpio_set pin))

  -- From `w` to `w'` nothing changed but the user's own password and outputs.
  pub record IsOwn (user : AuthUser) (found : Found) (w w' : Device C) : Type 0 where
    pub firmware_kept : w'.firmware ≡ w.firmware
    pub sensors_kept : w'.sensor_data ≡ w.sensor_data
    pub db_kept :
        (j : Bytes)
        → user_pw_key C.heapless user.username ≢ some j
        → C.ekv.stored w'.db j ≡ C.ekv.stored w.db j
    pub gpio_kept : (w'.gpio ≡ w.gpio) ⊎ IsSwitch user found

  same-IsOwn : (user : AuthUser) (found : Found) (w : Device C) → IsOwn user found w w
  same-IsOwn user found w = record {
    firmware_kept = refl;
    sensors_kept = refl;
    db_kept = λ j ne. refl;
    gpio_kept = inl refl;
  }

  module _ (L : IsAtomic C.ekv) (wait : Gpio C.signal → Gpio C.signal) (q : Request C)
      (w : Device C) where
    module _ (user : AuthUser)
        (login : auth_user C.heapless C.sha2 C.ekv C.base64 w.db q.auth_header ≡ ok user)
        (plain : user.is_admin ≡ false) where
      no_admin : admin_user C.heapless C.sha2 C.ekv C.base64 w.db q.auth_header ≡ err tt
      unfolding admin_user
      no_admin = rw (login, plain)

      admin-IsOwn : (found : Found) (f : Handler C) → IsOwn user found w (with_admin C q f w).1
      admin-IsOwn found f = rw no_admin (same-IsOwn user found w)

      json-IsOwn :
          {A : Type 0} (found : Found) (body : Option A) (f : A → Handler C)
          → ((a : A) → IsOwn user found w (f a w).1)
          → IsOwn user found w (with_json C body f w).1
      json-IsOwn found none f h = same-IsOwn user found w
      json-IsOwn found (some a) f h = h a

      toggle-IsOwn :
          (pin : ℕ)
          → IsOwn user
              (handler (gpio_toggle pin))
              w
              (switched C (handle_gpio_toggle C.signal wait pin user) w).1
      unfolding handle_gpio_toggle
      toggle-IsOwn pin = elim (Bool-cases (leb 8 pin || not (is_allowed user.allowed_ports pin))) [
        | inl e ↦ rw e (same-IsOwn user (handler (gpio_toggle pin)) w)
        | inr e ↦ record {
          firmware_kept = refl;
          sensors_kept = refl;
          db_kept = λ j ne. refl;
          gpio_kept =
              inr (record {
                pin = pin;
                in_range = ground arith;
                may = ground arith;
                asked = inl refl;
              });
        }
      ]

      set-IsOwn :
          (pin : ℕ) (body : SetBody)
          → IsOwn user
              (handler (gpio_set pin))
              w
              (switched C (handle_gpio_set C.signal wait pin user body) w).1
      unfolding handle_gpio_set
      set-IsOwn pin body =
          elim (Bool-cases (leb 8 pin || not (is_allowed user.allowed_ports pin))) [
            | inl e ↦ rw e (same-IsOwn user (handler (gpio_set pin)) w)
            | inr e ↦ record {
              firmware_kept = refl;
              sensors_kept = refl;
              db_kept = λ j ne. refl;
              gpio_kept = inr (record {
                pin = pin;
                in_range = ground arith;
                may = ground arith;
                asked = inr refl;
              });
            }
          ]

      serve-IsOwn : (e : Endpoint) → IsOwn user (handler e) w (serve C wait q e w).1
      unfolding serve
      serve-IsOwn index = same-IsOwn user _ w
      serve-IsOwn status = same-IsOwn user _ w
      serve-IsOwn sensors = same-IsOwn user _ w
      serve-IsOwn password = rw login (
          json-IsOwn (handler password) q.password_json _ (λ body. record {
            firmware_kept = refl;
            sensors_kept = refl;
            db_kept = λ j ne. password_change_keeps L C.heapless C.sha2 user body j w.db plain ne;
            gpio_kept = inl refl;
          }))
      serve-IsOwn create_user = admin-IsOwn _ _
      serve-IsOwn reset = admin-IsOwn _ _
      serve-IsOwn (gpio_get pin) = rw login (same-IsOwn user (handler (gpio_get pin)) w)
      serve-IsOwn (gpio_toggle pin) = rw login (toggle-IsOwn pin)
      serve-IsOwn (gpio_set pin) =
          rw login (json-IsOwn (handler (gpio_set pin)) q.set_json _ (set-IsOwn pin))
      serve-IsOwn (port_name_get port) = same-IsOwn user _ w
      serve-IsOwn (port_name_set port) = admin-IsOwn _ _
      serve-IsOwn (user_ports name) = admin-IsOwn _ _
      serve-IsOwn (delete_user name) = admin-IsOwn _ _
      serve-IsOwn (update m) =
          elim (request_cases C.updater C.reader C.heapless C.sha2 C.ekv C.base64 w.db q.method_name
            q.auth_header q.content_length (q.body, w.firmware)) [
              | inl (a, _) ↦ (let admitted = a.admin_ok in let refused = no_admin in absurd cc)
              | inr (kept, _) ↦ record {
                firmware_kept = ap (λ t. t.1) kept;
                sensors_kept = refl;
                db_kept = λ j ne. refl;
                gpio_kept = inl refl;
              }
            ]

      dispatch-IsOwn : (found : Found) → IsOwn user found w (dispatch C wait q found w).1
      dispatch-IsOwn no_path = same-IsOwn user no_path w
      dispatch-IsOwn no_method = same-IsOwn user no_method w
      dispatch-IsOwn (handler e) = serve-IsOwn e

    -- A request of a user without administrator rights changes nothing but the user's own: the
    -- firmware stays, every key but the one of the user's password keeps its value, and the outputs
    -- and the pending command stay, unless the request switches an output that the user may switch.
    -- (The key-value store is atomic.)
    pub user_changes-IsOwn :
        (parse_u8 : Bytes → Option ℕ) (user : AuthUser)
        → auth_user C.heapless C.sha2 C.ekv C.base64 w.db q.auth_header ≡ ok user
        → user.is_admin ≡ false
        → IsOwn user (build_app parse_u8 q.method q.path) w (handle_request C parse_u8 wait q w).1
    unfolding handle_request
    user_changes-IsOwn parse_u8 user login plain =
        dispatch-IsOwn user login plain (build_app parse_u8 q.method q.path)
