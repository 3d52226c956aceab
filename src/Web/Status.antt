-- ===== src/Web/Status.antt =====
-- application/src/web/status.rs: `GET /api/status`.
use cro_pduster.Prelude.{Bool, false, Option, none, some, Bytes, codes, length, get_or, ◌&&◌, ◌==◌}
use cro_pduster.Platform.{Ekv}
use cro_pduster.Auth.{into_buffer}
use cro_pduster.Storage.Keys.{key_admin_first_login}

pub record StatusResponse : Type 0 where
  pub version : Bytes
  pub first_login : Bool

abbrev flag : Option Bytes → Bool
flag none = false
flag (some v) = length v == 1 && get_or (into_buffer 1 v) 0 0 == b'1'

pub handle_status : (E : Ekv) → E.Db → StatusResponse
handle_status E d = record {
  version = codes "1.0.0";
  first_login = flag (E.read d key_admin_first_login 1);
}
