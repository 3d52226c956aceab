-- ===== src/Storage/Pages/Layout.antt =====
-- Where the pages of the database lie in the flash, beside the firmware partitions of config.rs.
use cro_pduster.Prelude.{
  ℕ, ◌+◌, ◌-◌, ◌*◌, ◌≤◌, ◌<◌, ◌≡◌, ◌⊎◌, ◌∙◌, true, some, Bytes, length, get_or, arith,
}
use cro_pduster.Config.{config_start, config_size}
use cro_pduster.Platform.{NorFlash, IsNorFlash}
use cro_pduster.Storage.Pages.{flash_base, page_offset, erase, read, write}

-- Where a page starts, counted from the start of the flash: the CONFIG partition starts at 0xA8000.
abbrev pub page_base : ℕ → ℕ
page_base p = 0xA8000 + 4096 * p

offset_at : (p : ℕ) → p < 64 → page_offset p ≡ page_base p
unfolding page_offset
offset_at p h = omega arith

erase-at :
    (N : NorFlash) (p : ℕ) (f : N.Flash)
    → p < 64
    → erase N p f ≡ N.erase (page_base p) (page_base p + 4096) f
unfolding erase
erase-at N p f h = ground (arith, offset_at p h)

write-at :
    (N : NorFlash) (p offset : ℕ) (bytes : Bytes) (f : N.Flash)
    → p < 64
    → offset ≤ 4096
    → write N p offset bytes f ≡ N.write (page_base p + offset) bytes f
unfolding write
write-at N p offset bytes f h b = ground (arith, offset_at p h)

read-at :
    (N : NorFlash) (p offset n : ℕ) (f : N.Flash)
    → p < 64
    → offset ≤ 4096
    → read N p offset n f ≡ N.read (page_base p + offset) n f
unfolding read
read-at N p offset n f h b = ground (arith, offset_at p h)

-- A write into 4096 erased bytes from `s` on.
erased_write :
    {N : NorFlash}
    → IsNorFlash N
    → (s offset : ℕ) (bytes v : Bytes) (f : N.Flash) → offset + length bytes ≤ 4096
    → let e = N.erase s (s + 4096) f in
      let w = N.write (s + offset) bytes e.1 in
      e.0 ≡ true
      → w.0 ≡ true
      → N.read (s + offset) (length bytes) w.1 ≡ some v
      → (length v ≡ length bytes)
        × ((i : ℕ) → i < length bytes → get_or v i 0 ≡ get_or bytes i 0)
        × ((a : ℕ) → (a < s) ⊎ (s + 4096 ≤ a) → N.contents w.1 a ≡ N.contents f a)
erased_write {N} L s offset bytes v f fits erased wrote found =
    let e = N.erase s (s + 4096) f in
    (
      L.length-read _ _ _ v found,
      λ i b.
          L.contents-read _ _ _ v i found b
          ∙ L.contents-write_erased (s + offset) bytes e.1 i wrote b
              (L.contents-erase s (s + 4096) f (s + offset + i) erased ∙ ground arith),
      λ a out.
          L.contents-write (s + offset) bytes e.1 a wrote (ground arith)
          ∙ L.contents-erase s (s + 4096) f a erased
          ∙ ground arith,
    )

-- What the database writes into an erased page is read back from it, and nothing else of the flash
-- has changed: not a byte of another page or of a firmware slot. Page `p` of the 64 has the 4096
-- bytes from `0xA8000 + 4096 * p` on, which lie inside the CONFIG partition. (The erase, the write and
-- the read succeed, and the write ends inside the page.)
pub page_write-read :
    {N : NorFlash}
    → IsNorFlash N
    → (p offset : ℕ) (bytes v : Bytes) (f : N.Flash) → p < 64
    → offset + length bytes ≤ 4096
    → let e = erase N p f in
      let w = write N p offset bytes e.1 in
      e.0 ≡ true
      → w.0 ≡ true
      → read N p offset (length bytes) w.1 ≡ some v
      → (length v ≡ length bytes)
        × ((i : ℕ) → i < length bytes → get_or v i 0 ≡ get_or bytes i 0)
        × ((a : ℕ)
            → (a < page_base p) ⊎ (page_base p + 4096 ≤ a)
            → N.contents w.1 a ≡ N.contents f a)
        × (page_base p + 4096 ≤ config_start - flash_base + config_size)
page_write-read {N} L p offset bytes v f hp fits erased wrote found =
    let own = λ (g : N.Flash). write-at N p offset bytes g hp (omega arith) in
    let back = λ (g : N.Flash). read-at N p offset (length bytes) g hp (omega arith) in
    let first = erase-at N p f hp in
    let (long, same, others) =
      erased_write L (page_base p) offset bytes v f fits (rw first at erased)
        (rw (first, own (N.erase (page_base p) (page_base p + 4096) f).1) at wrote)
        (rw
          (
            first,
            own (N.erase (page_base p) (page_base p + 4096) f).1,
            back
                (N.write (page_base p + offset) bytes
                  (N.erase (page_base p) (page_base p + 4096) f).1).1,
          )
          at found) in
    rw (first, own (N.erase (page_base p) (page_base p + 4096) f).1)
      (long, same, λ a out. others a (ground arith), omega arith)
