-- ===== src/Storage/Keys/Laws.antt =====
-- Which keys the builders build, when they panic, and how the keys compare.
use mathlib.Core.List.{append_cancel_right}
use cro_pduster.Prelude.{
  ℕ, ◌+◌, ◌%◌, ◌≤◌, ◌<◌, ◌≡◌, ◌≢◌, refl, ap, of_some, true, none, some, [], ◌∷◌, ◌++◌, Bytes, codes,
  length, lt_bytes, lt_bytes-append, arith,
}
use cro_pduster.Platform.{Heapless, IsBounded}
use cro_pduster.Storage.Keys.{
  key_admin_first_login, port_name_key, user_admin_key, user_ports_key, user_pw_key,
}

-- The keys as texts: `p/{port}/name` and `u/{username}/{field}`.
abbrev pub name_key : ℕ → Bytes
name_key port = 112 ∷ 47 ∷ ((48 + port) % 256) ∷ codes "/name"

abbrev pub user_key : Bytes → Bytes → Bytes
user_key username field = 117 ∷ 47 ∷ (username ++ field)

abbrev pub admin_key : Bytes → Bytes
admin_key username = user_key username (codes "/admin")

abbrev pub ports_key : Bytes → Bytes
ports_key username = user_key username (codes "/ports")

abbrev pub pw_key : Bytes → Bytes
pw_key username = user_key username (codes "/pw")

module _ {H : Heapless} (B : IsBounded H) where
  -- A port key always fits.
  pub port_name_key_lem : (port : ℕ) → port_name_key H port ≡ some (name_key port)
  unfolding port_name_key
  port_name_key_lem port = rw (
    B.extend_fits 16 [] (codes "p/") (omega arith),
    B.push_fits 16 (112 ∷ 47 ∷ []) ((48 + port) % 256) (omega arith),
    B.extend_fits 16 (112 ∷ 47 ∷ ((48 + port) % 256) ∷ []) (codes "/name") (omega arith),
  )

  start_fits : H.extend_from_slice 64 [] (codes "u/") ≡ some (codes "u/")
  start_fits = B.extend_fits 64 [] (codes "u/") (omega arith)

  -- The steps of a user key, with its last part `field`.
  user_key_fits :
      (username field : Bytes)
      → length username + length field ≤ 62
      → (H.extend_from_slice 64 (codes "u/") username ≡ some (117 ∷ 47 ∷ username))
        × (H.extend_from_slice 64 (117 ∷ 47 ∷ username) field ≡ some (user_key username field))
  user_key_fits username field h = (
    B.extend_fits 64 (codes "u/") username (omega arith),
    B.extend_fits 64 (117 ∷ 47 ∷ username) field (omega arith),
  )

  pub user_admin_key_lem :
      (username : Bytes)
      → length username ≤ 56
      → user_admin_key H username ≡ some (admin_key username)
  unfolding user_admin_key
  user_admin_key_lem username h =
      let (a, b) = user_key_fits username (codes "/admin") (omega arith) in rw (start_fits, a, b)

  pub user_ports_key_lem :
      (username : Bytes)
      → length username ≤ 56
      → user_ports_key H username ≡ some (ports_key username)
  unfolding user_ports_key
  user_ports_key_lem username h =
      let (a, b) = user_key_fits username (codes "/ports") (omega arith) in rw (start_fits, a, b)

  pub user_pw_key_lem :
      (username : Bytes) → length username ≤ 59 → user_pw_key H username ≡ some (pw_key username)
  unfolding user_pw_key
  user_pw_key_lem username h =
      let (a, b) = user_key_fits username (codes "/pw") (omega arith) in rw (start_fits, a, b)

  -- A username of more than 56 bytes makes the admin key overflow its vector: the builder panics.
  pub user_admin_key_panics :
      (username : Bytes) → 56 < length username → user_admin_key H username ≡ none
  unfolding user_admin_key
  user_admin_key_panics username h = ground (
    arith,
    start_fits,
    B.extend_fits 64 (codes "u/") username,
    B.extend_full 64 (codes "u/") username,
    B.extend_full 64 (117 ∷ 47 ∷ username) (codes "/admin"),
  )

-- The three keys of one user ascend, as a write transaction wants them.
pub user_keys_ascend :
    (username : Bytes)
    → (lt_bytes (admin_key username) (ports_key username) ≡ true)
      × (lt_bytes (ports_key username) (pw_key username) ≡ true)
user_keys_ascend username = (
  rw (lt_bytes-append username (codes "/admin") (codes "/ports")),
  rw (lt_bytes-append username (codes "/ports") (codes "/pw")),
)

-- The last byte of a text, or `d` if it is empty.
abbrev last_or : ℕ → Bytes → ℕ
last_or d [] = d
last_or d (b ∷ bs) = last_or b bs

last_or-append : (d : ℕ) (a : Bytes) (x : ℕ) (s : Bytes) → last_or d (a ++ (x ∷ s)) ≡ last_or x s
last_or-append d [] x s = refl
last_or-append d (b ∷ a) x s = last_or-append b a x s

-- The last bytes of the three fields differ, so the keys do, whatever the usernames are.
pub user_key_last : (u : Bytes) (x : ℕ) (s : Bytes) → last_or 0 (user_key u (x ∷ s)) ≡ last_or x s
user_key_last u x s = last_or-append 47 u x s

pub pw-ne-ports : (u v : Bytes) → pw_key u ≢ ports_key v
pw-ne-ports u v e =
    ground
      (arith, ap (last_or 0) e, user_key_last u 47 (codes "pw"), user_key_last v 47 (codes "ports"))

pub pw-ne-admin : (u v : Bytes) → pw_key u ≢ admin_key v
pw-ne-admin u v e =
    ground
      (arith, ap (last_or 0) e, user_key_last u 47 (codes "pw"), user_key_last v 47 (codes "admin"))

pub ports-ne-admin : (u v : Bytes) → ports_key u ≢ admin_key v
ports-ne-admin u v e = ground (
  arith,
  ap (last_or 0) e,
  user_key_last u 47 (codes "ports"),
  user_key_last v 47 (codes "admin"),
)

tail : Bytes → Bytes
tail [] = []
tail (b ∷ bs) = bs

pub user_key-injective : (u v field : Bytes) → user_key u field ≡ user_key v field → u ≡ v
unfolding tail
user_key-injective u v field e = append_cancel_right u v field (ap (λ k. tail (tail k)) e)

pub user-ne-name : (u field : Bytes) (port : ℕ) → user_key u field ≢ name_key port
user-ne-name u field port e = ground (arith, ap (last_or 0) e)

pub user-ne-first_login : (u field : Bytes) → user_key u field ≢ key_admin_first_login
user-ne-first_login u field e = ground arith

module _ {H : Heapless} (B : IsBounded H) where
  -- For usernames of at most 56 bytes, the builders give every user keys of its own: keys of one
  -- field coincide only for one username, and keys of different fields never, nor do they meet a
  -- port name's key or the first-login flag. Usernames with `/` in them are no exception.
  user_keys_distinct :
      (u v : Bytes) (port : ℕ)
      → length u ≤ 56
      → length v ≤ 56
      → (user_pw_key H u ≡ user_pw_key H v → u ≡ v)
        × (user_ports_key H u ≡ user_ports_key H v → u ≡ v)
        × (user_admin_key H u ≡ user_admin_key H v → u ≡ v)
        × (user_pw_key H u ≢ user_ports_key H v)
        × (user_pw_key H u ≢ user_admin_key H v)
        × (user_ports_key H u ≢ user_admin_key H v)
        × (user_pw_key H u ≢ port_name_key H port)
        × (user_ports_key H u ≢ port_name_key H port)
        × (user_admin_key H u ≢ port_name_key H port)
        × (user_pw_key H u ≢ some key_admin_first_login)
  user_keys_distinct u v port hu hv =
      rw
        (
          user_pw_key_lem B u (omega arith),
          user_pw_key_lem B v (omega arith),
          user_ports_key_lem B u hu,
          user_ports_key_lem B v hv,
          user_admin_key_lem B u hu,
          user_admin_key_lem B v hv,
          port_name_key_lem B port,
        )
        (
          λ e. user_key-injective u v _ (of_some e),
          λ e. user_key-injective u v _ (of_some e),
          λ e. user_key-injective u v _ (of_some e),
          λ e. pw-ne-ports u v (of_some e),
          λ e. pw-ne-admin u v (of_some e),
          λ e. ports-ne-admin u v (of_some e),
          λ e. user-ne-name u _ port (of_some e),
          λ e. user-ne-name u _ port (of_some e),
          λ e. user-ne-name u _ port (of_some e),
          λ e. user-ne-first_login u _ (of_some e),
        )
