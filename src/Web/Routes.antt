-- ===== src/Web/Routes.antt =====
-- application/src/web/mod.rs: the router. A path is the list of its segments as picoserve hands them
-- out; `get` is every method that it serves by `get(...)`.
pub mod Reach
use cro_pduster.Prelude.{
  ℕ, Bool, true, false, Option, none, some, List, [], ◌∷◌, Bytes, String, codes, length, map, leb,
  eq_bytes, if◌then◌else◌,
}

pub data Method : Type 0 where
  get post delete other : Method

pub data Endpoint : Type 0 where
  index status sensors password create_user reset : Endpoint
  gpio_get gpio_toggle gpio_set port_name_get port_name_set : ℕ → Endpoint
  user_ports delete_user : Bytes → Endpoint
  update : Method → Endpoint

-- What the router finds: no route with the path, a route without the method, or a handler.
pub data Found : Type 0 where
  no_path no_method : Found
  handler : Endpoint → Found

abbrev pub on_get : Endpoint → Method → Found
on_get e get = handler e
on_get e post = no_method
on_get e delete = no_method
on_get e other = no_method

abbrev pub on_post : Endpoint → Method → Found
on_post e get = no_method
on_post e post = handler e
on_post e delete = no_method
on_post e other = no_method

abbrev pub on_delete : Endpoint → Method → Found
on_delete e get = no_method
on_delete e post = no_method
on_delete e delete = handler e
on_delete e other = no_method

-- `get(...).post(...)`.
abbrev pub on_both : Endpoint → Endpoint → Method → Found
on_both e f get = handler e
on_both e f post = handler f
on_both e f delete = no_method
on_both e f other = no_method

abbrev pub same_path : List Bytes → List Bytes → Bool
same_path [] [] = true
same_path [] (b ∷ bs) = false
same_path (a ∷ as') [] = false
same_path (a ∷ as') (b ∷ bs) = if eq_bytes a b then same_path as' bs else false

-- The segment between `before` and `behind`, parsed, where the path has that form.
abbrev pub segment :
    {A : Type 0} → (Bytes → Option A) → List Bytes → List Bytes → List Bytes → Option A
segment parse before behind [] = none
segment parse [] behind (s ∷ path) = if same_path behind path then parse s else none
segment parse (b ∷ before) behind (s ∷ path) =
    let rest = segment parse before behind path in if eq_bytes b s then rest else none

-- A route: `none` where the path is another.
abbrev pub Route : Type 0
Route = Option (Method → Found)

abbrev pub exact : List Bytes → (Method → Found) → List Bytes → Route
exact at methods path = if same_path at path then some methods else none

abbrev pub with : {A : Type 0} → Option A → (A → Method → Found) → Route
with none methods = none
with (some a) methods = some (methods a)

-- `.route(...)` after `.route(...)`: the first that has the path decides.
abbrev pub first : List Route → Method → Found
first [] m = no_path
first (none ∷ routes) m = first routes m
first (some methods ∷ routes) m = methods m

-- `heapless::String<32>`
abbrev pub string_32 : Bytes → Option Bytes
string_32 s = if leb (length s) 32 then some s else none

abbrev pub segments : List String → List Bytes
segments names = map codes names

module _ (parse_u8 : Bytes → Option ℕ) where
  -- `build_app`
  unfoldable pub build_app : Method → List Bytes → Found
  build_app m path =
      first
        (exact [] (on_get index) path
          ∷ exact (segments ("api" ∷ "status" ∷ [])) (on_get status) path
          ∷ exact (segments ("api" ∷ "sensors" ∷ [])) (on_get sensors) path
          ∷ with (segment parse_u8 (segments ("api" ∷ "gpio" ∷ [])) [] path)
              (λ pin. on_get (gpio_get pin))
          ∷ with (segment parse_u8 (segments ("api" ∷ "gpio" ∷ [])) (segments ("toggle" ∷ [])) path)
              (λ pin. on_post (gpio_toggle pin))
          ∷ with (segment parse_u8 (segments ("api" ∷ "gpio" ∷ [])) (segments ("set" ∷ [])) path)
              (λ pin. on_post (gpio_set pin))
          ∷ with (segment parse_u8 (segments ("api" ∷ "port" ∷ [])) (segments ("name" ∷ [])) path)
              (λ port. on_both (port_name_get port) (port_name_set port))
          ∷ exact (segments ("api" ∷ "admin" ∷ "password" ∷ [])) (on_post password) path
          ∷ exact (segments ("api" ∷ "admin" ∷ "users" ∷ [])) (on_post create_user) path
          ∷ with
              (segment string_32 (segments ("api" ∷ "admin" ∷ "users" ∷ []))
                (segments ("ports" ∷ [])) path)
              (λ name. on_post (user_ports name))
          ∷ with (segment string_32 (segments ("api" ∷ "admin" ∷ "users" ∷ [])) [] path)
              (λ name. on_delete (delete_user name))
          ∷ exact (segments ("api" ∷ "admin" ∷ "reset" ∷ [])) (on_post reset) path
          ∷ exact (segments ("api" ∷ "update" ∷ [])) (λ k. handler (update k)) path
          ∷ [])
        m
