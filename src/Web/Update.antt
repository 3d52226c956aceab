-- ===== src/Web/Update.antt =====
-- application/src/web/update.rs: the firmware update over the network.
pub mod Refusal
pub mod Constructor
pub mod Blocks
pub mod Complete
pub mod Interleaving
pub mod Examples
use cro_pduster.Prelude.{
  ℕ, zero, suc, ◌+◌, ◌-◌, min, Bool, true, false, not, ◌||◌, Option, none, some, ◌++◌, Bytes, codes,
  length, take, drop, replicate, ltb, ◌==◌, eq_bytes, if◌then◌else◌,
}
use cro_pduster.Platform.{Heapless, Sha2, Base64, Ekv}
use cro_pduster.Platform.Updater.{Updater, Reader}
use cro_pduster.Outcome.{
  Result, ok, err, panic, Action, lift, ok_or, reject, map_err, continue, pure, ◌>>=◌, ◌>>◌,
}
use cro_pduster.Config.{active_size}
use cro_pduster.Auth.{StatusCode, method_not_allowed, forbidden, internal_server_error, admin_user}

-- The size of a flash block that is erased at once (embassy-rp's `ERASE_SIZE`).
abbrev pub erase_size : ℕ
erase_size = 4096

-- `write_buf` once its tail behind `chunk_size` is set to `0xFF`.
abbrev pub pad : ℕ → Bytes → Bytes
pad chunk_size write_buf = take chunk_size write_buf ++ replicate (erase_size - chunk_size) 0xFF

-- `write_buf` once `received` was read into its first bytes.
abbrev pub fill : ℕ → Bytes → Bytes → Bytes
fill chunk_size received write_buf = received ++ drop chunk_size write_buf

module _ (U : Updater) (R : Reader) where
  abbrev pub Transfer : Type 0
  Transfer = R.Stream × U.Flash

  abbrev pub read_exact : ℕ → Action Transfer Bytes Bytes
  read_exact chunk_size (s, f) =
      let (received, s') = R.read_exact chunk_size s in
      (ok_or (codes "Read error") received, (s', f))

  abbrev pub write_firmware : ℕ → Bytes → Action Transfer Bytes (Unit {0})
  write_firmware offset write_buf (s, f) =
      let (done, f') = U.write_firmware offset write_buf f in
      (reject (not done) (codes "Flash write error"), (s, f'))

  abbrev pub mark_updated : Action Transfer Bytes (Unit {0})
  mark_updated (s, f) =
      let (done, f') = U.mark_updated f in (reject (not done) (codes "Mark update error"), (s, f'))

  -- A round of the loop, with `write_buf` as it leaves it.
  abbrev pub write_block : ℕ → ℕ → Bytes → Action Transfer Bytes Bytes
  write_block offset remaining write_buf = do
    received ← read_exact (min remaining erase_size)
    let filled =
          fill (min remaining erase_size) received (pad (min remaining erase_size) write_buf) in
        do write_firmware offset filled; pure filled

  -- The loop: a round writes one erase block, so there are at most `remaining` rounds, and that is
  -- the fuel that it is started with. Fuel that runs out is a panic.
  unfoldable pub write_blocks : ℕ → ℕ → ℕ → Bytes → Action Transfer Bytes (Unit {0})
  write_blocks zero offset remaining write_buf t = (if remaining == 0 then ok tt else panic, t)
  write_blocks (suc fuel) offset remaining write_buf t =
      let block =
        (do
          filled ← write_block offset remaining write_buf
          write_blocks fuel (offset + erase_size) (remaining - min remaining erase_size) filled)
          t in
      if remaining == 0 then (ok tt, t) else block

  -- `FirmwareUpdater::new`, by its buffer: it asserts the size that the flash wants.
  abbrev pub new_updater : Bytes → Result Bytes (Unit {0})
  new_updater aligned = if length aligned == U.aligned_size then ok tt else panic

  -- On success the chip is reset, so the function does not return.
  unfoldable pub write_firmware_streaming : ℕ → Action Transfer Bytes (Unit {0})
  unfolding write_blocks
  write_firmware_streaming content_length = do
    lift (
        reject (content_length == 0 || ltb active_size content_length)
          (codes "Invalid firmware size"))
    lift (new_updater (replicate erase_size 0))
    write_blocks content_length 0 content_length (replicate erase_size 0)
    mark_updated

  abbrev pub respond :
      {A : Type 0} → Action Transfer Bytes A → Action Transfer (StatusCode × Bytes) A
  respond m t = let (r, t') = m t in (map_err (λ msg. (internal_server_error, msg)) r, t')

  -- `call_method_handler_service`: an error is the response, `ok` is the reset.
  pub update_service :
      (H : Heapless) (S : Sha2) (E : Ekv) (B : Base64)
      → E.Db
      → Bytes
      → Option Bytes
      → ℕ
      → Action Transfer (StatusCode × Bytes) (Unit {0})
  unfolding write_firmware_streaming
  update_service H S E B d method auth_header content_length = do
    lift (
        reject (not (eq_bytes method (codes "POST")))
          (method_not_allowed, codes "Method Not Allowed"))
    admin ← lift (map_err (λ _. (forbidden, codes "Forbidden")) (admin_user H S E B d auth_header))
    respond (write_firmware_streaming content_length)
