-- ===== src/Xtask/Elf/Examples.antt =====
-- Two small ELF files, and the theorems about images at them.
use cro_pduster.Prelude.{
  ◌<◌, ◌+◌, ◌*◌, ◌≡◌, refl, [], ◌∷◌, ◌++◌, ℕ, Bytes, replicate, get_or, arith,
}
use cro_pduster.Outcome.{ok}
use cro_pduster.Xtask.Uf2.{binary_to_uf2}
use cro_pduster.Xtask.Elf.{
  Segment, load_segments, max_extent, combine, flash_base, app_flash_offset,
}
use cro_pduster.Xtask.Elf.Placement.{segment_byte}
use cro_pduster.Xtask.Elf.Combined.{segments_of, HasMagic, combine_shifts}

-- A file with one loadable segment of two bytes, for the address `0x10000000 + 256 * page`.
abbrev file : ℕ → Bytes
file page =
    0x7F ∷ b'E' ∷ b'L' ∷ b'F' ∷ []
    ++ replicate 24 0
    ++ (52 ∷ 0 ∷ 0 ∷ 0 ∷ [])
    ++ replicate 12 0
    ++ (1 ∷ 0 ∷ [])
    ++ replicate 6 0
    ++ (1 ∷ 0 ∷ 0 ∷ 0 ∷ 84 ∷ 0 ∷ 0 ∷ 0 ∷ 0 ∷ 0 ∷ 0 ∷ 0 ∷ 0 ∷ page ∷ 0 ∷ 0x10 ∷ 2 ∷ 0 ∷ 0 ∷ 0 ∷ [])
    ++ replicate 12 0
    ++ (0xAB ∷ 0xCD ∷ [])

abbrev at_page : ℕ → Segment
at_page page = record { offset = 256 * page; content = 0xAB ∷ 0xCD ∷ [] }

bootloader_segments : segments_of (file 1) flash_base ≡ ok (at_page 1 ∷ [])
unfolding load_segments
bootloader_segments = refl

application_segments : segments_of (file 0x70) flash_base ≡ ok (at_page 0x70 ∷ [])
unfolding load_segments
application_segments = refl

bootloader_magic : HasMagic (file 1)
bootloader_magic = (omega arith, refl)

application_magic : HasMagic (file 0x70)
application_magic = (omega arith, refl)

-- The application is linked at `0x10007000`; its first byte lands at `0xE000` of the image.
combine_shifts_example :
    (image : Bytes) × (combine (file 1) (file 0x70) ≡ ok (binary_to_uf2 image flash_base))
    × ((j : ℕ)
        → j < max_extent (at_page 1 ∷ []) 0
        → get_or image j 0xFF ≡ segment_byte (at_page 1 ∷ []) 0xFF j)
    × ((j : ℕ)
        → j < max_extent (at_page 0x70 ∷ []) 0
        → get_or image (app_flash_offset + j) 0xFF ≡ segment_byte (at_page 0x70 ∷ []) 0xFF j)
combine_shifts_example =
    combine_shifts (file 1) (file 0x70) (at_page 1) (at_page 0x70) [] [] bootloader_magic
      application_magic bootloader_segments application_segments (omega arith)
