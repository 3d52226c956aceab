-- ===== src/Web/Requests.antt =====
-- application/src/web/mod.rs: a request on the whole device, from its route and the extractors of
-- its handler to the handler (see application/src/web/admin.rs, gpio.rs and update.rs for what each
-- handler takes). Extractors run in the order of the parameters, and the first that fails answers.
pub mod Access
pub mod Own
pub mod Panics
pub mod Switches
mod Examples
use cro_pduster.Prelude.{ℕ, Bool, true, false, Option, none, some, List, Bytes, if◌then◌else◌}
use cro_pduster.Platform.{Heapless, Sha2, Base64, Ekv, Signal}
use cro_pduster.Platform.Updater.{Updater, Reader}
use cro_pduster.Outcome.{Result, ok, err, panic, Action, map_err}
use cro_pduster.Auth.{AuthUser, StatusCode, forbidden, auth_user, admin_user, auth_error_status}
use cro_pduster.Gpio.{GpioCommand, Gpio, start}
use cro_pduster.Web.Status.{StatusResponse, handle_status}
use cro_pduster.Web.Sensors.{SensorData, SensorsResponse, handle_sensors}
use cro_pduster.Web.Gpio.{
  GpioStateResponse, GpioToggleResponse, SetBody, handle_gpio_get, handle_gpio_toggle,
  handle_gpio_set,
}
use cro_pduster.Web.Admin.{
  OkResponse, ApiError, PortNameBody, PortNameResponse, ChangePasswordBody, CreateUserBody,
  SetPortsBody, handle_port_name_set, handle_port_name_get, handle_password_change,
  handle_create_user, handle_set_user_ports, handle_delete_user, handle_factory_reset,
}
use cro_pduster.Web.Update.{update_service}
use cro_pduster.Web.Routes.{
  Method, get, post, delete, other, Endpoint, index, status, sensors, password, create_user, reset,
  gpio_get, gpio_toggle, gpio_set, port_name_get, port_name_set, user_ports, delete_user, update,
  Found, no_path, no_method, handler, build_app,
}

-- The crates that a device is built from, and the type of its floats.
pub record Crates : Type 1 where
  pub heapless : Heapless
  pub sha2 : Sha2
  pub base64 : Base64
  pub ekv : Ekv
  pub signal : Signal GpioCommand
  pub updater : Updater
  pub reader : Reader
  pub F32 : Type 0

module _ (C : Crates) where
  -- What a request can read and change.
  pub record Device : Type 0 where
    pub db : C.ekv.Db
    pub gpio : Gpio C.signal
    pub firmware : C.updater.Flash
    pub sensor_data : SensorData C.F32

  -- The parts of a request, with its body as a stream, and as what picoserve's `JsonBody` makes of it.
  pub record Request : Type 0 where
    pub method : Method
    pub method_name : Bytes
    pub path : List Bytes
    pub auth_header : Option Bytes
    pub content_length : ℕ
    pub body : C.reader.Stream
    pub set_json : Option SetBody
    pub port_name_json : Option PortNameBody
    pub password_json : Option ChangePasswordBody
    pub user_json : Option CreateUserBody
    pub ports_json : Option SetPortsBody

  -- The answers: those of the handlers, those of the extractors and of the router, and how a request
  -- ends that is not answered.
  pub data Reply : Type 0 where
    index_html : Reply
    status_json : StatusResponse → Reply
    sensors_json : SensorsResponse C.F32 → Reply
    state_json : GpioStateResponse → Reply
    switch_json : GpioToggleResponse → Reply
    name_json : PortNameResponse → Reply
    ok_json : OkResponse → Reply
    api_error : StatusCode × Bytes → Reply
    denied : StatusCode → Reply
    bad_json not_found method_refused resets panics : Reply

  abbrev pub Handler : Type 0
  Handler = Device → Reply × Device

  abbrev pub for_user : Result StatusCode AuthUser → (AuthUser → Handler) → Handler
  for_user (ok user) f w = f user w
  for_user (err code) f w = (denied code, w)
  for_user panic f w = (panics, w)

  abbrev user_result : Request → Device → Result StatusCode AuthUser
  user_result q w =
      map_err auth_error_status (auth_user C.heapless C.sha2 C.ekv C.base64 w.db q.auth_header)

  abbrev admin_result : Request → Device → Result StatusCode AuthUser
  admin_result q w =
      map_err (λ _. forbidden) (admin_user C.heapless C.sha2 C.ekv C.base64 w.db q.auth_header)

  -- A parameter `AuthUser`, `AdminUser`, `JsonBody`.
  abbrev pub with_user : Request → (AuthUser → Handler) → Handler
  with_user q f w = for_user (user_result q w) f w

  abbrev pub with_admin : Request → Handler → Handler
  with_admin q f w = for_user (admin_result q w) (λ _. f) w

  abbrev pub with_json : {A : Type 0} → Option A → (A → Handler) → Handler
  with_json none f w = (bad_json, w)
  with_json (some a) f w = f a w

  abbrev api_reply : Result ApiError OkResponse → Reply
  api_reply (ok r) = ok_json r
  api_reply (err e) = api_error e
  api_reply panic = panics

  -- A handler of the database that answers with an `ApiResult`.
  abbrev pub on_db : Action C.ekv.Db ApiError OkResponse → Handler
  on_db m w = let (r, d) = m w.db in (api_reply r, record w { db = d })

  abbrev read_reply : {A : Type 0} → (A → Reply) → Result Bytes A → Reply
  read_reply f (ok a) = f a
  read_reply f (err e) = panics
  read_reply f panic = panics

  abbrev end_reply : Result (StatusCode × Bytes) (Unit {0}) → Reply
  end_reply (ok u) = resets
  end_reply (err e) = api_error e
  end_reply panic = panics

  abbrev pub switched : (Gpio C.signal → GpioToggleResponse × Gpio C.signal) → Handler
  switched f w = let (r, g) = f w.gpio in (switch_json r, record w { gpio = g })

  abbrev pub reset_handler : Handler
  reset_handler w =
      let (r, d) = handle_factory_reset C.heapless C.sha2 C.ekv {X = StatusCode × Bytes} w.db in
      (end_reply r, record w { db = d })

  abbrev update_handler : Request → Handler
  update_handler q w =
      let (r, t) =
        update_service C.updater C.reader C.heapless C.sha2 C.ekv C.base64 w.db q.method_name
          q.auth_header q.content_length (q.body, w.firmware) in
      (end_reply r, record w { firmware = t.1 })

  -- `wait` is what the other tasks do to the outputs during the wait of a switch.
  pub serve : (Gpio C.signal → Gpio C.signal) → Request → Endpoint → Handler
  serve wait q index w = (index_html, w)
  serve wait q status w = (status_json (handle_status C.ekv w.db), w)
  serve wait q sensors w = (sensors_json (handle_sensors w.sensor_data), w)
  serve wait q (gpio_get pin) w =
      with_user q
        (λ user w. (
          read_reply state_json (handle_gpio_get C.signal C.heapless C.ekv pin user w.gpio w.db),
          w,
        ))
        w
  serve wait q (gpio_toggle pin) w =
      with_user q (λ user. switched (handle_gpio_toggle C.signal wait pin user)) w
  serve wait q (gpio_set pin) w =
      with_user q
        (λ user.
          with_json q.set_json (λ body. switched (handle_gpio_set C.signal wait pin user body)))
        w
  serve wait q (port_name_get port) w =
      (read_reply name_json (handle_port_name_get C.heapless C.ekv port w.db), w)
  serve wait q (port_name_set port) w =
      with_admin q
        (with_json q.port_name_json
          (λ body. on_db (handle_port_name_set C.heapless C.ekv port body)))
        w
  serve wait q password w =
      with_user q
        (λ user.
          with_json q.password_json
            (λ body. on_db (handle_password_change C.heapless C.sha2 C.ekv user body)))
        w
  serve wait q create_user w =
      with_admin q
        (with_json q.user_json (λ body. on_db (handle_create_user C.heapless C.sha2 C.ekv body))) w
  serve wait q (user_ports name) w =
      with_admin q
        (with_json q.ports_json (λ body. on_db (handle_set_user_ports C.heapless C.ekv name body)))
        w
  serve wait q (delete_user name) w =
      with_admin q (on_db (handle_delete_user C.heapless C.ekv name)) w
  serve wait q reset w = with_admin q reset_handler w
  serve wait q (update m) w = update_handler q w

  abbrev dispatch : (Gpio C.signal → Gpio C.signal) → Request → Found → Handler
  dispatch wait q no_path w = (not_found, w)
  dispatch wait q no_method w = (method_refused, w)
  dispatch wait q (handler e) w = serve wait q e w

  -- A request to the router, as its handling leaves the device. A reply that says so is followed by
  -- the restart of the chip, which `answer_request` adds.
  pub handle_request : (Bytes → Option ℕ) → (Gpio C.signal → Gpio C.signal) → Request → Handler
  unfolding serve
  handle_request parse_u8 wait q w = dispatch wait q (build_app parse_u8 q.method q.path) w

  -- A panic, and the reset that a handler asks for, lose what is not on the flash: the pins of the
  -- outputs go low, and a command that waits is gone.
  abbrev pub restarts : Reply → Bool
  restarts resets = true
  restarts panics = true
  restarts _ = false

  abbrev pub after_reply : Reply × Device → Reply × Device
  after_reply (r, w) = (r, if restarts r then record w { gpio = start C.signal } else w)

  -- A request and what becomes of the device by it, up to the next start of the firmware.
  pub answer_request : (Bytes → Option ℕ) → (Gpio C.signal → Gpio C.signal) → Request → Handler
  unfolding handle_request
  answer_request parse_u8 wait q w = after_reply (handle_request parse_u8 wait q w)
