-- ===== src/Web/Routes/Reach.antt =====
-- application/src/web/mod.rs: every handler is reached.
use cro_pduster.Prelude.{
  ℕ, ◌≡◌, ◌≤◌, refl, Option, some, List, [], ◌∷◌, Bytes, codes, length, arith,
}
use cro_pduster.Web.Routes.{
  Method, get, post, delete, Endpoint, index, status, sensors, password, create_user, reset,
  gpio_get, gpio_toggle, gpio_set, port_name_get, port_name_set, user_ports, delete_user, update,
  handler, segments, build_app,
}

-- The requests that the documentation of the API names, with a decimal number as its text `s`.
abbrev pub request_of : (ℕ → Bytes) → Endpoint → Method × List Bytes
request_of s index = (get, [])
request_of s status = (get, segments ("api" ∷ "status" ∷ []))
request_of s sensors = (get, segments ("api" ∷ "sensors" ∷ []))
request_of s (gpio_get pin) = (get, codes "api" ∷ codes "gpio" ∷ s pin ∷ [])
request_of s (gpio_toggle pin) = (post, codes "api" ∷ codes "gpio" ∷ s pin ∷ codes "toggle" ∷ [])
request_of s (gpio_set pin) = (post, codes "api" ∷ codes "gpio" ∷ s pin ∷ codes "set" ∷ [])
request_of s (port_name_get port) = (get, codes "api" ∷ codes "port" ∷ s port ∷ codes "name" ∷ [])
request_of s (port_name_set port) = (post, codes "api" ∷ codes "port" ∷ s port ∷ codes "name" ∷ [])
request_of s password = (post, segments ("api" ∷ "admin" ∷ "password" ∷ []))
request_of s create_user = (post, segments ("api" ∷ "admin" ∷ "users" ∷ []))
request_of s (user_ports name) =
    (post, codes "api" ∷ codes "admin" ∷ codes "users" ∷ name ∷ codes "ports" ∷ [])
request_of s (delete_user name) = (delete, codes "api" ∷ codes "admin" ∷ codes "users" ∷ name ∷ [])
request_of s reset = (post, segments ("api" ∷ "admin" ∷ "reset" ∷ []))
request_of s (update m) = (m, segments ("api" ∷ "update" ∷ []))

-- A pin or port is a `u8`, and a username in a path has at most 32 bytes.
abbrev pub IsRoutable : Endpoint → Type 0
IsRoutable (user_ports name) = length name ≤ 32
IsRoutable (delete_user name) = length name ≤ 32
IsRoutable (gpio_get pin) = pin ≤ 255
IsRoutable (gpio_toggle pin) = pin ≤ 255
IsRoutable (gpio_set pin) = pin ≤ 255
IsRoutable (port_name_get port) = port ≤ 255
IsRoutable (port_name_set port) = port ≤ 255
IsRoutable _ = Unit

-- No route hides another: the request of each handler is routed to that handler, with its
-- parameters. (Parsing a segment inverts printing a `u8`.)
pub build_app-request_of :
    (parse_u8 : Bytes → Option ℕ) (s : ℕ → Bytes)
    → ((n : ℕ) → n ≤ 255 → parse_u8 (s n) ≡ some n)
    → (e : Endpoint) → IsRoutable e
    → let (m, path) = request_of s e in build_app parse_u8 m path ≡ handler e
unfolding build_app
build_app-request_of p s r index h = refl
build_app-request_of p s r status h = refl
build_app-request_of p s r sensors h = refl
build_app-request_of p s r password h = refl
build_app-request_of p s r create_user h = refl
build_app-request_of p s r reset h = refl
build_app-request_of p s r (gpio_get pin) h = rw (r pin h)
build_app-request_of p s r (gpio_toggle pin) h = rw (r pin h)
build_app-request_of p s r (gpio_set pin) h = rw (r pin h)
build_app-request_of p s r (port_name_get port) h = rw (r port h)
build_app-request_of p s r (port_name_set port) h = rw (r port h)
build_app-request_of p s r (user_ports name) h = ground arith
build_app-request_of p s r (delete_user name) h = ground arith
build_app-request_of p s r (update m) h = refl
