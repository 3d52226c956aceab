-- ===== src/Storage/Keys.antt =====
-- application/src/storage.rs: the keys of the database. Each step of a builder is unwrapped, so
-- `none` is a panic: the key is longer than its vector.
pub mod Laws
use cro_pduster.Prelude.{ℕ, ◌+◌, ◌%◌, Option, [], Bytes, codes}
use cro_pduster.Platform.{Heapless}
use cro_pduster.Outcome.Unwrap.{◌>>=◌}

abbrev pub key_admin_first_login : Bytes
key_admin_first_login = codes "admin/first_login"

module _ (H : Heapless) where
  -- `b'0' + port` on `u8` wraps in a release build.
  unfoldable pub port_name_key : ℕ → Option Bytes
  port_name_key port = do
    v ← H.extend_from_slice 16 [] (codes "p/")
    v ← H.push 16 v ((b'0' + port) % 256)
    H.extend_from_slice 16 v (codes "/name")

  unfoldable pub user_admin_key : Bytes → Option Bytes
  user_admin_key username = do
    v ← H.extend_from_slice 64 [] (codes "u/")
    v ← H.extend_from_slice 64 v username
    H.extend_from_slice 64 v (codes "/admin")

  unfoldable pub user_ports_key : Bytes → Option Bytes
  user_ports_key username = do
    v ← H.extend_from_slice 64 [] (codes "u/")
    v ← H.extend_from_slice 64 v username
    H.extend_from_slice 64 v (codes "/ports")

  unfoldable pub user_pw_key : Bytes → Option Bytes
  user_pw_key username = do
    v ← H.extend_from_slice 64 [] (codes "u/")
    v ← H.extend_from_slice 64 v username
    H.extend_from_slice 64 v (codes "/pw")
