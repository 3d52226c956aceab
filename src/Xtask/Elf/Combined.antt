-- ===== src/Xtask/Elf/Combined.antt =====
-- xtask/src/main.rs: where each byte of an ELF file stands in its image and in the combined one.
use cro_pduster.Prelude.{
  ℕ, zero, suc, ◌+◌, ◌-◌, ◌≤◌, ◌<◌, ◌≡◌, refl, ap, ◌∙◌, false, List, Bytes, [], ◌∷◌, ◌++◌, length,
  get_or, take, drop, replicate, length-append, length-take, length-drop, length-replicate,
  get_or-append, get_or-replicate, ltb, if◌then◌else◌, arith,
}
use cro_pduster.Outcome.{Result, ok}
use cro_pduster.Xtask.Uf2.{from_le_bytes, binary_to_uf2}
use cro_pduster.Xtask.Elf.{
  Segment, max_extent, combined_image, app_flash_offset, flash_base, ImageError, load_segments,
  from_le_bytes_16, elf_magic, elf_to_binary, combine,
}
use cro_pduster.Xtask.Elf.Placement.{segment_byte, get_or-take, get_or-drop, flat_segments_lem}

get_or-out : (xs : List ℕ) (j d : ℕ) → length xs ≤ j → get_or xs j d ≡ d
get_or-out [] j d h = refl
get_or-out (x ∷ xs) zero d h = absurd (omega arith)
get_or-out (x ∷ xs) (suc j) d h = get_or-out xs j d (omega arith)

joined :
    (n : ℕ) (first second : List ℕ) (j : ℕ)
    → length first ≤ n
    → get_or
        (take n (first ++ drop (length first) (replicate (n + length second) 0xFF)) ++ second)
        j
        0xFF
      ≡ (if ltb j n then get_or first j 0xFF else get_or second (j - n) 0xFF)
joined n first second j h =
    let m = n + length second in
    let blank : List ℕ = replicate m 0xFF in
    let filled = first ++ drop (length first) blank in
    let front : length (take n filled) ≡ n = omega (
      arith,
      length-take n filled,
      length-append first (drop (length first) blank),
      length-drop (length first) blank,
      length-replicate {A = ℕ} m 0xFF,
    ) in
    rw
      (
        get_or-append (take n filled) second j 0xFF,
        front,
        get_or-take n filled j 0xFF,
        get_or-append first (drop (length first) blank) j 0xFF,
        get_or-drop (length first) blank (j - length first) 0xFF,
        get_or-replicate {A = ℕ} m 0xFF (length first + (j - length first)) 0xFF,
      )
      (ground (arith, get_or-out first j 0xFF))

-- Every byte of the combined image: the bootloader's, the filler up to `0x7000`, and then the
-- application's image, whose byte at `j` stands at `0x7000 + j`.
combined_image_lem :
    (bl_bin app_bin : List ℕ) (j : ℕ)
    → length bl_bin ≤ app_flash_offset
    → get_or (combined_image bl_bin app_bin) j 0xFF ≡ (
        if ltb j app_flash_offset
        then get_or bl_bin j 0xFF
        else get_or app_bin (j - app_flash_offset) 0xFF)
unfolding combined_image
combined_image_lem bl_bin app_bin j h = joined app_flash_offset bl_bin app_bin j h

low :
    (bl_bin app_bin : List ℕ) (j : ℕ)
    → j < app_flash_offset
    → (if ltb j app_flash_offset
        then get_or bl_bin j 0xFF
        else get_or app_bin (j - app_flash_offset) 0xFF)
      ≡ get_or bl_bin j 0xFF
low bl_bin app_bin j h = ground arith

high :
    (bl_bin app_bin : List ℕ) (j : ℕ)
    → (if ltb (app_flash_offset + j) app_flash_offset
        then get_or bl_bin (app_flash_offset + j) 0xFF
        else get_or app_bin (app_flash_offset + j - app_flash_offset) 0xFF)
      ≡ get_or app_bin j 0xFF
high bl_bin app_bin j =
    let above : ltb (app_flash_offset + j) app_flash_offset ≡ false = ground arith in
    rw above (ap (λ k. get_or app_bin k 0xFF) (omega arith))

-- The loadable segments of a file from an address on, if it is an ELF file.
abbrev pub segments_of : Bytes → ℕ → Result ImageError (List Segment)
segments_of elf base_addr =
    load_segments (from_le_bytes_16 elf 0x2C) 0 elf (from_le_bytes elf 0x1C) base_addr

abbrev pub HasMagic : Bytes → Type 0
HasMagic elf = (0x34 ≤ length elf) × (take 4 elf ≡ elf_magic)

-- An ELF file with a loadable segment becomes an image that ends where the last byte of a segment
-- does; each byte is that of the last segment that covers it, or `0xFF` in a gap.
pub elf_to_binary_lem :
    (elf : Bytes) (base_addr : ℕ) (s : Segment) (ss : List Segment)
    → HasMagic elf
    → segments_of elf base_addr ≡ ok (s ∷ ss)
    → (bin : Bytes) × (elf_to_binary elf base_addr ≡ ok bin)
      × (length bin ≡ max_extent (s ∷ ss) 0)
      × ((j : ℕ) → j < length bin → get_or bin j 0xFF ≡ segment_byte (s ∷ ss) 0xFF j)
unfolding elf_to_binary
elf_to_binary_lem elf base_addr s ss (size, magic) e =
    let long : ltb (length elf) 0x34 ≡ false = ground arith in
    let (bin, made, extent, bytes) = flat_segments_lem s ss in
    (bin, rw (long, magic, e, made), extent, bytes)

-- `combine` puts the application 0x7000 too high: the byte that its segments have for the address
-- `0x10000000 + j` stands at `0x10007000 + j` in the combined image. Below, the bootloader's bytes
-- stand at their addresses. (Both files are ELF files with loadable segments from `0x10000000` on,
-- and the bootloader's end below `0x10007000`.)
pub combine_shifts :
    (bl_elf app_elf : Bytes) (b s : Segment) (bs ss : List Segment)
    → HasMagic bl_elf
    → HasMagic app_elf
    → segments_of bl_elf flash_base ≡ ok (b ∷ bs)
    → segments_of app_elf flash_base ≡ ok (s ∷ ss)
    → max_extent (b ∷ bs) 0 ≤ app_flash_offset
    → (image : Bytes) × (combine bl_elf app_elf ≡ ok (binary_to_uf2 image flash_base))
      × ((j : ℕ) → j < max_extent (b ∷ bs) 0 → get_or image j 0xFF ≡ segment_byte (b ∷ bs) 0xFF j)
      × ((j : ℕ)
          → j < max_extent (s ∷ ss) 0
          → get_or image (app_flash_offset + j) 0xFF ≡ segment_byte (s ∷ ss) 0xFF j)
unfolding combine
combine_shifts bl_elf app_elf b s bs ss mb ms eb es fits =
    let (bl_bin, bl_ok, bl_size, bl_bytes) = elf_to_binary_lem bl_elf flash_base b bs mb eb in
    let (app_bin, app_ok, app_size, app_bytes) = elf_to_binary_lem app_elf flash_base s ss ms es in
    let small : ltb app_flash_offset (length bl_bin) ≡ false = ground arith in
    (
      combined_image bl_bin app_bin,
      rw (bl_ok, app_ok, small),
      λ j h.
          combined_image_lem bl_bin app_bin j (omega arith)
          ∙ low bl_bin app_bin j (omega arith)
          ∙ bl_bytes j (omega arith),
      λ j h.
          combined_image_lem bl_bin app_bin (app_flash_offset + j) (omega arith)
          ∙ high bl_bin app_bin j
          ∙ app_bytes j (omega arith),
    )
