-- ===== src/Xtask/Elf.antt =====
-- xtask/src/main.rs: the flat image of an ELF file, and the combined image of two.
pub mod Placement
pub mod Combined
mod Examples
use cro_pduster.Prelude.{
  ℕ, zero, suc, ◌+◌, ◌-◌, ◌*◌, Bool, true, false, not, ◌||◌, Option, none, some, List, [], ◌∷◌,
  ◌++◌, Bytes, length, get_or, take, drop, replicate, ltb, leb, ◌==◌, eq_bytes, if◌then◌else◌,
}
use Prim.Native.Nat.{max}
use cro_pduster.Outcome.{Result, ok, err, panic, reject}
use cro_pduster.Outcome.Chain.{◌>>=◌, ◌>>◌}
use cro_pduster.Xtask.Uf2.{from_le_bytes, copy_at, binary_to_uf2}

pub data ImageError : Type 0 where
  not_elf no_segments too_large : ImageError
  past_end : ℕ → ImageError

pub record Segment : Type 0 where
  pub offset : ℕ
  pub content : Bytes

-- `u16::from_le_bytes`
abbrev pub from_le_bytes_16 : Bytes → ℕ → ℕ
from_le_bytes_16 bytes at = get_or bytes at 0 + 256 * get_or bytes (1 + at) 0

abbrev pub and_then : Segment → Result ImageError (List Segment) → Result ImageError (List Segment)
and_then s (ok ss) = ok (s ∷ ss)
and_then s (err e) = err e
and_then s panic = panic

-- The loop over the program headers from number `i` on.
unfoldable pub load_segments : ℕ → ℕ → Bytes → ℕ → ℕ → Result ImageError (List Segment)
load_segments zero i elf e_phoff base_addr = ok []
load_segments (suc rounds) i elf e_phoff base_addr =
    let ph = e_phoff + i * 32 in
    let p_offset = from_le_bytes elf (4 + ph) in
    let p_paddr = from_le_bytes elf (12 + ph) in
    let p_filesz = from_le_bytes elf (16 + ph) in
    let rest = load_segments rounds (suc i) elf e_phoff base_addr in
    if ltb (length elf) (ph + 32)
    then ok []
    else (if not (from_le_bytes elf ph == 1) || (ltb p_paddr base_addr || p_filesz == 0)
        then rest
        else (if ltb (length elf) (p_offset + p_filesz)
            then err (past_end p_paddr)
            else and_then
                (record {
                  offset = p_paddr - base_addr;
                  content = take p_filesz (drop p_offset elf);
                })
                rest))

-- `max_extent`, and the copies of the segments in order.
abbrev pub max_extent : List Segment → ℕ → ℕ
max_extent [] n = n
max_extent (s ∷ ss) n = max_extent ss (max n (s.offset + length s.content))

abbrev pub place_segments : List Segment → Bytes → Bytes
place_segments [] bin = bin
place_segments (s ∷ ss) bin = place_segments ss (copy_at s.offset s.content bin)

abbrev pub flat_segments : List Segment → Result ImageError Bytes
flat_segments [] = err no_segments
flat_segments (s ∷ ss) = ok (place_segments (s ∷ ss) (replicate (max_extent (s ∷ ss) 0) 0xFF))

abbrev pub elf_magic : Bytes
elf_magic = 0x7F ∷ b'E' ∷ b'L' ∷ b'F' ∷ []

pub elf_to_binary : Bytes → ℕ → Result ImageError Bytes
unfolding load_segments
elf_to_binary elf base_addr = do
  reject (ltb (length elf) 0x34 || not (eq_bytes (take 4 elf) elf_magic)) not_elf
  segments ← load_segments (from_le_bytes_16 elf 0x2C) 0 elf (from_le_bytes elf 0x1C) base_addr
  flat_segments segments

abbrev pub app_flash_offset : ℕ
app_flash_offset = 0x7000

abbrev pub flash_base : ℕ
flash_base = 0x10000000

-- `combined`: the bootloader from 0, the application from `app_flash_offset`, `0xFF` between.
pub combined_image : Bytes → Bytes → Bytes
combined_image bl_bin app_bin =
    let combined = replicate (app_flash_offset + length app_bin) 0xFF in
    let with_bootloader = bl_bin ++ drop (length bl_bin) combined in
    take app_flash_offset with_bootloader ++ app_bin

-- What `combine` writes to combined.uf2.
pub combine : Bytes → Bytes → Result ImageError Bytes
unfolding elf_to_binary combined_image
combine bl_elf app_elf = do
  bl_bin ← elf_to_binary bl_elf flash_base
  app_bin ← elf_to_binary app_elf flash_base
  reject (ltb app_flash_offset (length bl_bin)) too_large
  ok (binary_to_uf2 (combined_image bl_bin app_bin) flash_base)
