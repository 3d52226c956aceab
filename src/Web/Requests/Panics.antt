-- ===== src/Web/Requests/Panics.antt =====
-- A request that panics has changed nothing that is stored.
use cro_pduster.Prelude.{ℕ, inl, inr, ◌≡◌, refl, Option, none, some, Bytes}
use cro_pduster.Platform.{IsBounded, IsDigest, IsAtomic, IsReliable}
use cro_pduster.Outcome.{Result, ok, err, panic, Action, Result-cases}
use cro_pduster.Auth.{AuthUser, StatusCode}
use cro_pduster.Gpio.{Gpio}
use cro_pduster.Web.Admin.{ApiError, OkResponse}
use cro_pduster.Web.Admin.Atomic.{
  KeepsOnFailure, port_name_set-KeepsOnFailure, password_change-KeepsOnFailure,
  create_user-KeepsOnFailure, user_ports-KeepsOnFailure, delete_user-KeepsOnFailure,
}
use cro_pduster.Web.Admin.Reset.{factory_reset_login}
use cro_pduster.Web.Routes.{
  Endpoint, index, status, sensors, password, create_user, reset, gpio_get, gpio_toggle, gpio_set,
  port_name_get, port_name_set, user_ports, delete_user, update, Found, no_path, no_method, handler,
  build_app,
}
use cro_pduster.Web.Requests.{
  Crates, Device, Request, Reply, Handler, with_user, with_admin, with_json, on_db, for_user,
  reset_handler, serve, handle_request, dispatch,
}

module _ (C : Crates) where
  -- From `w`, if the request panics, what is stored is as before.
  record KeepsOnPanic (w : Device C) (p : Reply C × Device C) : Type 0 where
    unchanged : p.0 ≡ Reply.panics → (j : Bytes) → C.ekv.stored p.1.db j ≡ C.ekv.stored w.db j

  same-KeepsOnPanic : (w w' : Device C) (r : Reply C) → w'.db ≡ w.db → KeepsOnPanic w (r, w')
  same-KeepsOnPanic w w' r e = record { unchanged = λ h j. rw e }

  for_user-KeepsOnPanic :
      (w : Device C) (r : Result StatusCode AuthUser) (f : AuthUser → Handler C)
      → ((user : AuthUser) → KeepsOnPanic w (f user w))
      → KeepsOnPanic w (for_user C r f w)
  for_user-KeepsOnPanic w (ok user) f h = h user
  for_user-KeepsOnPanic w (err code) f h = same-KeepsOnPanic w w _ refl
  for_user-KeepsOnPanic w panic f h = same-KeepsOnPanic w w _ refl

  user-KeepsOnPanic :
      (q : Request C) (w : Device C) (f : AuthUser → Handler C)
      → ((user : AuthUser) → KeepsOnPanic w (f user w))
      → KeepsOnPanic w (with_user C q f w)
  user-KeepsOnPanic q w f h = for_user-KeepsOnPanic w _ f h

  admin-KeepsOnPanic :
      (q : Request C) (w : Device C) (f : Handler C)
      → KeepsOnPanic w (f w)
      → KeepsOnPanic w (with_admin C q f w)
  admin-KeepsOnPanic q w f h = for_user-KeepsOnPanic w _ (λ _. f) (λ _. h)

  json-KeepsOnPanic :
      (w : Device C) {A : Type 0} (body : Option A) (f : A → Handler C)
      → ((a : A) → KeepsOnPanic w (f a w))
      → KeepsOnPanic w (with_json C body f w)
  json-KeepsOnPanic w none f h = same-KeepsOnPanic w w _ refl
  json-KeepsOnPanic w (some a) f h = h a

  on_db-KeepsOnPanic :
      (w : Device C) (m : Action C.ekv.Db ApiError OkResponse)
      → KeepsOnFailure C.ekv m
      → KeepsOnPanic w (on_db C m w)
  on_db-KeepsOnPanic w m k = record {
    unchanged = λ h j. elim (Result-cases (m w.db).0) [
      | inl (a, e) ↦ (let impossible = rw e at h in absurd cc)
      | inr (inl (a, e)) ↦ k.unchanged w.db j (rw e refl)
      | inr (inr e) ↦ k.unchanged w.db j (rw e refl)
    ];
  }

  module _ (B : IsBounded C.heapless) (D : IsDigest C.sha2) (L : IsAtomic C.ekv)
      (R : IsReliable C.ekv) where
    -- A factory reset does not panic.
    reset-KeepsOnPanic : (w : Device C) → KeepsOnPanic w (reset_handler C w)
    reset-KeepsOnPanic w = record {
      unchanged = λ h j.
          let (d', ran, _, _, _) = factory_reset_login B D L R {X = StatusCode × Bytes} w.db in
          let impossible = rw ran at h in absurd cc;
    }

    serve-KeepsOnPanic :
        (wait : Gpio C.signal → Gpio C.signal) (q : Request C) (e : Endpoint) (w : Device C)
        → KeepsOnPanic w (serve C wait q e w)
    unfolding serve
    serve-KeepsOnPanic wait q index w = same-KeepsOnPanic w w _ refl
    serve-KeepsOnPanic wait q status w = same-KeepsOnPanic w w _ refl
    serve-KeepsOnPanic wait q sensors w = same-KeepsOnPanic w w _ refl
    serve-KeepsOnPanic wait q (gpio_get pin) w =
        user-KeepsOnPanic q w _ (λ user. same-KeepsOnPanic w w _ refl)
    serve-KeepsOnPanic wait q (gpio_toggle pin) w =
        user-KeepsOnPanic q w _ (λ user. same-KeepsOnPanic w _ _ refl)
    serve-KeepsOnPanic wait q (gpio_set pin) w =
        user-KeepsOnPanic q w _
          (λ user. json-KeepsOnPanic w q.set_json _ (λ body. same-KeepsOnPanic w _ _ refl))
    serve-KeepsOnPanic wait q (port_name_get port) w = same-KeepsOnPanic w w _ refl
    serve-KeepsOnPanic wait q (port_name_set port) w = admin-KeepsOnPanic q w _ (
        json-KeepsOnPanic w q.port_name_json _
          (λ body. on_db-KeepsOnPanic w _ (port_name_set-KeepsOnFailure L C.heapless port body)))
    serve-KeepsOnPanic wait q password w = user-KeepsOnPanic q w _ (λ user.
        json-KeepsOnPanic w q.password_json _ (λ body.
          on_db-KeepsOnPanic w _ (password_change-KeepsOnFailure L C.heapless C.sha2 user body)))
    serve-KeepsOnPanic wait q create_user w = admin-KeepsOnPanic q w _ (
        json-KeepsOnPanic w q.user_json _
          (λ body. on_db-KeepsOnPanic w _ (create_user-KeepsOnFailure L C.heapless C.sha2 body)))
    serve-KeepsOnPanic wait q (user_ports name) w = admin-KeepsOnPanic q w _ (
        json-KeepsOnPanic w q.ports_json _
          (λ body. on_db-KeepsOnPanic w _ (user_ports-KeepsOnFailure L C.heapless name body)))
    serve-KeepsOnPanic wait q (delete_user name) w =
        admin-KeepsOnPanic q w _
          (on_db-KeepsOnPanic w _ (delete_user-KeepsOnFailure L C.heapless name))
    serve-KeepsOnPanic wait q reset w = admin-KeepsOnPanic q w _ (reset-KeepsOnPanic w)
    serve-KeepsOnPanic wait q (update m) w = same-KeepsOnPanic w _ _ refl

    dispatch-KeepsOnPanic :
        (wait : Gpio C.signal → Gpio C.signal) (q : Request C) (found : Found) (w : Device C)
        → KeepsOnPanic w (dispatch C wait q found w)
    dispatch-KeepsOnPanic wait q no_path w = same-KeepsOnPanic w w _ refl
    dispatch-KeepsOnPanic wait q no_method w = same-KeepsOnPanic w w _ refl
    dispatch-KeepsOnPanic wait q (handler e) w = serve-KeepsOnPanic wait q e w

    pub panic_keeps :
        (parse_u8 : Bytes → Option ℕ) (wait : Gpio C.signal → Gpio C.signal) (q : Request C)
        (w : Device C)
        → (handle_request C parse_u8 wait q w).0 ≡ Reply.panics
        → (j : Bytes)
        → C.ekv.stored (handle_request C parse_u8 wait q w).1.db j ≡ C.ekv.stored w.db j
    unfolding handle_request
    panic_keeps parse_u8 wait q w h =
        (dispatch-KeepsOnPanic wait q (build_app parse_u8 q.method q.path) w).unchanged h
