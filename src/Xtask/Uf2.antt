-- ===== src/Xtask/Uf2.antt =====
-- xtask/src/main.rs: a flat image as UF2 blocks, and the part of a UF2 file that lies in the active
-- partition as a flat image.
pub mod Slots
pub mod Entries
pub mod RoundTrip
mod Examples
use cro_pduster.Prelude.{
  ℕ, zero, suc, ◌+◌, ◌-◌, ◌*◌, ◌/◌, ◌%◌, ◌^◌, Bool, true, false, not, ◌||◌, Option, none, some,
  List, [], ◌∷◌, ◌++◌, Bytes, String, length, get_or, take, drop, replicate, ltb, leb, ◌==◌,
  if◌then◌else◌,
}
use cro_pduster.Outcome.{Result, ok, err, panic}

abbrev pub uf2_magic0 : ℕ
uf2_magic0 = 0x0A324655

abbrev pub uf2_magic1 : ℕ
uf2_magic1 = 0x9E5D5157

abbrev pub uf2_magic_end : ℕ
uf2_magic_end = 0x0AB16F30

abbrev pub uf2_flag_family : ℕ
uf2_flag_family = 0x00002000

abbrev pub rp2040_family_id : ℕ
rp2040_family_id = 0xe48bff56

abbrev pub uf2_payload_size : ℕ
uf2_payload_size = 256

abbrev pub active_start : ℕ
active_start = 0x10007000

-- `u32::to_le_bytes` and `u32::from_le_bytes` of the four bytes from `at`.
abbrev pub to_le_bytes : ℕ → Bytes
to_le_bytes n = n % 256 ∷ n / 256 % 256 ∷ n / 65536 % 256 ∷ n / 16777216 % 256 ∷ []

abbrev pub from_le_bytes : Bytes → ℕ → ℕ
from_le_bytes bytes at =
    get_or bytes at 0
    + 256 * get_or bytes (1 + at) 0
    + 65536 * get_or bytes (2 + at) 0
    + 16777216 * get_or bytes (3 + at) 0

-- `chunks(n)`, with at least as many rounds as there are chunks.
abbrev pub chunks_by {ℓ} : {A : Type ℓ} → ℕ → ℕ → List A → List (List A)
chunks_by zero n xs = []
chunks_by (suc rounds) n [] = []
chunks_by (suc rounds) n (x ∷ xs) = take n (x ∷ xs) ∷ chunks_by rounds n (drop n (x ∷ xs))

abbrev pub chunks {ℓ} : {A : Type ℓ} → ℕ → List A → List (List A)
chunks n xs = chunks_by (length xs) n xs

-- One block of 512 bytes: the header, the payload in a zeroed space of 476 bytes, the end.
abbrev pub uf2_block : ℕ → ℕ → ℕ → Bytes → Bytes
uf2_block addr i num_blocks chunk =
    to_le_bytes uf2_magic0
    ++ to_le_bytes uf2_magic1
    ++ to_le_bytes uf2_flag_family
    ++ to_le_bytes addr
    ++ to_le_bytes uf2_payload_size
    ++ to_le_bytes (i % 2 ^ 32)
    ++ to_le_bytes (num_blocks % 2 ^ 32)
    ++ to_le_bytes rp2040_family_id
    ++ (chunk ++ (replicate (476 - length chunk) 0 ++ to_le_bytes uf2_magic_end))

-- The blocks from number `i` on.
abbrev pub uf2_blocks : ℕ → ℕ → ℕ → List Bytes → List Bytes
uf2_blocks base_addr num_blocks i [] = []
uf2_blocks base_addr num_blocks i (chunk ∷ rest) =
    uf2_block ((base_addr + i * uf2_payload_size) % 2 ^ 32) i num_blocks chunk
    ∷ uf2_blocks base_addr num_blocks (suc i) rest

abbrev pub concat : List Bytes → Bytes
concat [] = []
concat (b ∷ bs) = b ++ concat bs

pub binary_to_uf2 : Bytes → ℕ → Bytes
binary_to_uf2 image base_addr = concat (
    uf2_blocks base_addr ((length image + 255) / uf2_payload_size) 0
      (chunks uf2_payload_size image))

-- The loop over the chunks of 512 bytes: `break` at a short one, `continue` at one without the magic
-- numbers or below the active partition.
abbrev pub active_blocks : List Bytes → List (ℕ × Bytes)
active_blocks [] = []
active_blocks (chunk ∷ rest) =
    let found = active_blocks rest in
    let addr = from_le_bytes chunk 12 in
    if ltb (length chunk) 512
    then []
    else (if not (from_le_bytes chunk 0 == uf2_magic0) || not (from_le_bytes chunk 4 == uf2_magic1)
        then found
        else (if ltb addr active_start then found else (addr, take 256 (drop 32 chunk)) ∷ found))

-- `sort_by_key`: by address, and blocks of one address in their order.
abbrev pub insert_block : ℕ × Bytes → List (ℕ × Bytes) → List (ℕ × Bytes)
insert_block b [] = b ∷ []
insert_block b (c ∷ cs) =
    let rest = insert_block b cs in if leb b.0 c.0 then b ∷ c ∷ cs else c ∷ rest

abbrev pub sort_blocks : List (ℕ × Bytes) → List (ℕ × Bytes)
sort_blocks [] = []
sort_blocks (b ∷ bs) = insert_block b (sort_blocks bs)

-- `bin[off..off + payload.len()].copy_from_slice(payload)`
abbrev pub copy_at : ℕ → Bytes → Bytes → Bytes
copy_at off payload bin = take off bin ++ payload ++ drop (off + length payload) bin

abbrev pub place_blocks : ℕ → List (ℕ × Bytes) → Bytes → Bytes
place_blocks first_addr [] bin = bin
place_blocks first_addr ((addr, payload) ∷ rest) bin =
    place_blocks first_addr rest (copy_at (addr - first_addr) payload bin)

abbrev pub last_addr : ℕ → List (ℕ × Bytes) → ℕ
last_addr addr [] = addr
last_addr addr ((next, payload) ∷ rest) = last_addr next rest

abbrev pub flat_image : List (ℕ × Bytes) → Option Bytes
flat_image [] = none
flat_image ((first_addr, payload) ∷ rest) = some (
    place_blocks first_addr ((first_addr, payload) ∷ rest)
      (replicate (last_addr first_addr rest - first_addr + 256) 0xFF))

-- `none` is the error that no block of the active partition was found.
pub uf2_to_active_binary : Bytes → Option Bytes
uf2_to_active_binary uf2_data = flat_image (sort_blocks (active_blocks (chunks 512 uf2_data)))
