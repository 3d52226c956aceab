-- ===== src/Platform/Updater.antt =====
-- embassy-boot and picoserve, as application/src/web/update.rs uses them: the firmware updater on
-- the flash, and the stream of a request's body.
use cro_pduster.Prelude.{
  ℕ, ◌+◌, ◌-◌, ◌≡◌, Bool, true, false, Option, some, ◌++◌, Bytes, length, get_or, ltb, leb, ◌&&◌,
  if◌then◌else◌,
}

-- A `false` is any `Err` of the call.
pub record Updater : Type 1 where
  pub Flash : Type 0
  -- The size of the aligned buffer that `FirmwareUpdater::new` asserts: the larger of the sizes of a
  -- write and of a read of the state partition.
  pub aligned_size : ℕ
  pub write_firmware : ℕ → Bytes → Flash → Bool × Flash
  pub mark_updated : Flash → Bool × Flash
  -- The bytes of the DFU partition, and whether the bootloader will swap it in.
  pub dfu : Flash → ℕ → ℕ
  pub is_marked : Flash → Bool

-- embassy-rp's flash writes and reads single bytes.
pub record IsByteFlash (U : Updater) : Type 0 where
  pub aligned_byte : U.aligned_size ≡ 1

-- A write that is accepted replaces its range of the DFU partition, and only `mark_updated` marks.
pub record IsUpdater (U : Updater) : Type 0 where
  pub dfu-write :
      (offset : ℕ) (block : Bytes) (f : U.Flash) (i : ℕ)
      → (U.write_firmware offset block f).0 ≡ true
      → U.dfu (U.write_firmware offset block f).1 i ≡ (
          if leb offset i && ltb i (offset + length block)
          then get_or block (i - offset) 0
          else U.dfu f i)
  pub marked-write :
      (offset : ℕ) (block : Bytes) (f : U.Flash)
      → U.is_marked (U.write_firmware offset block f).1 ≡ U.is_marked f
  pub dfu-mark : (f : U.Flash) (i : ℕ) → U.dfu (U.mark_updated f).1 i ≡ U.dfu f i

-- A write that is refused has not touched the partition: its range is tested before the erase.
pub record IsTestedFirst (U : Updater) : Type 0 where
  pub dfu-refused :
      (offset : ℕ) (block : Bytes) (f : U.Flash) (i : ℕ)
      → (U.write_firmware offset block f).0 ≡ false
      → U.dfu (U.write_firmware offset block f).1 i ≡ U.dfu f i

-- The reader of a body. `pending` is what it has not handed out, if the client sends it all.
pub record Reader : Type 1 where
  pub Stream : Type 0
  pub read_exact : ℕ → Stream → Option Bytes × Stream
  pub pending : Stream → Bytes

-- A read that succeeds returns the next bytes, as many as were asked.
pub record IsStream (R : Reader) : Type 0 where
  pub length-read :
      (n : ℕ) (s : R.Stream) (v : Bytes) → (R.read_exact n s).0 ≡ some v → length v ≡ n
  pub pending-read :
      (n : ℕ) (s : R.Stream) (v : Bytes)
      → (R.read_exact n s).0 ≡ some v
      → R.pending s ≡ v ++ R.pending (R.read_exact n s).1
