-- ===== src/Xtask/Ota.antt =====
-- xtask/src/main.rs: the upload of a firmware over the network. `post` is the HTTP request of ureq.
pub mod EndToEnd
mod Examples
use cro_pduster.Prelude.{
  ℕ, Bool, true, false, ◌&&◌, ◌||◌, Option, none, some, [], ◌∷◌, ◌++◌, Bytes, codes, leb, ◌==◌,
  if◌then◌else◌,
}
use cro_pduster.Platform.{Base64}
use cro_pduster.Text.{is_whitespace}
use cro_pduster.Xtask.Uf2.{uf2_to_active_binary}

-- `str::trim` on ASCII text.
abbrev trim_start : Bytes → Bytes
trim_start [] = []
trim_start (c ∷ cs) = let rest = trim_start cs in if is_whitespace c then rest else c ∷ cs

abbrev keep : ℕ → Bytes → Bytes
keep c [] = if is_whitespace c then [] else c ∷ []
keep c (r ∷ rest) = c ∷ r ∷ rest

abbrev trim_end : Bytes → Bytes
trim_end [] = []
trim_end (c ∷ cs) = keep c (trim_end cs)

abbrev pub trim : Bytes → Bytes
trim s = trim_end (trim_start s)

-- The contents of .pdu-credentials, or the default.
abbrev pub creds_or_default : Option Bytes → Bytes
creds_or_default none = codes "admin:admin"
creds_or_default (some creds) = creds

abbrev pub authorization : Base64 → Option Bytes → Bytes
authorization B file = codes "Basic " ++ B.encode (trim (creds_or_default file))

-- The kinds of `std::io::Error` that are told apart, and how a request ends.
pub data ErrorKind : Type 0 where
  connection_reset connection_aborted broken_pipe unexpected_eof other_kind : ErrorKind

pub data HttpResult : Type 0 where
  response : ℕ → HttpResult
  connection_failed other_error : HttpResult
  io : ErrorKind → HttpResult

pub is_expected_ota_reset : HttpResult → Bool
is_expected_ota_reset connection_failed = true
is_expected_ota_reset (io connection_reset) = true
is_expected_ota_reset (io connection_aborted) = true
is_expected_ota_reset (io broken_pipe) = true
is_expected_ota_reset (io unexpected_eof) = true
is_expected_ota_reset (io other_kind) = false
is_expected_ota_reset (response status) = false
is_expected_ota_reset other_error = false

abbrev pub is_complete : HttpResult → Bool
is_complete (response status) = status == 200
is_complete connection_failed = is_expected_ota_reset connection_failed
is_complete other_error = is_expected_ota_reset other_error
is_complete (io kind) = is_expected_ota_reset (io kind)

-- The upload of a body, if the UF2 file has one: whether it is reported as complete.
abbrev pub upload : (Bytes → Bytes → HttpResult) → Bytes → Option Bytes → Bool
upload post auth none = false
upload post auth (some body) = is_complete (post auth body)

-- `flash_ota`, from the two files that it reads.
pub flash_ota : Base64 → (Bytes → Bytes → HttpResult) → Option Bytes → Bytes → Bool
unfolding is_expected_ota_reset
flash_ota B post file uf2_data = upload post (authorization B file) (uf2_to_active_binary uf2_data)
