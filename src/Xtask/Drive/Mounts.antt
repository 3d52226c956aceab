-- ===== src/Xtask/Drive/Mounts.antt =====
-- xtask/src/main.rs: the lines of /proc/mounts, as the kernel prints them, are read back.
use cro_pduster.Prelude.{
  ℕ, ◌≡◌, refl, ap, ◌∙◌, false, Option, none, some, List, [], ◌∷◌, ◌++◌, append-nil, append_assoc,
  Bytes, ◌==◌, eq_bytes, Bool-cases, inl, inr, arith, if◌then◌else◌,
}
use cro_pduster.Text.{is_whitespace}
use cro_pduster.Xtask.Drive.{lines, flush, split_from, split_whitespace, find_mount}

-- An entry: the device, the mount point, and the rest of its line.
pub record Entry : Type 0 where
  pub device : Bytes
  pub path : Bytes
  pub options : Bytes

abbrev pub print_entry : Entry → Bytes
print_entry e = e.device ++ (b' ' ∷ (e.path ++ (b' ' ∷ e.options)))

abbrev pub print_mounts : List Entry → Bytes
print_mounts [] = []
print_mounts (e ∷ es) = print_entry e ++ (b'\n' ∷ print_mounts es)

-- The mount point of the first entry for a device.
abbrev pub lookup : Bytes → List Entry → Option Bytes
lookup device [] = none
lookup device (e ∷ es) =
    let rest = lookup device es in if eq_bytes e.device device then some e.path else rest

abbrev NoSpace : Bytes → Type 0
NoSpace [] = Unit
NoSpace (c ∷ cs) = (is_whitespace c ≡ false) × NoSpace cs

abbrev pub IsWord : Bytes → Type 0
IsWord [] = ⊥
IsWord (c ∷ cs) = NoSpace (c ∷ cs)

abbrev pub IsLine : Bytes → Type 0
IsLine [] = Unit
IsLine (c ∷ cs) = ((c == b'\n') ≡ false) × IsLine cs

abbrev pub ArePrintable : List Entry → Type 0
ArePrintable [] = Unit
ArePrintable (e ∷ es) = IsWord e.device × IsWord e.path × IsLine e.options × ArePrintable es

line-append : (l rest : Bytes) → IsLine l → lines (l ++ (b'\n' ∷ rest)) ≡ l ∷ lines rest
unfolding lines
line-append [] rest h = refl
line-append (c ∷ cs) rest h = rw (h.0, line-append cs rest h.1)

split-word :
    (part w rest : Bytes)
    → NoSpace w
    → split_from part (w ++ (b' ' ∷ rest)) ≡ flush (part ++ w) (split_whitespace rest)
unfolding split_from
split-word part [] rest h = rw (append-nil part)
split-word part (c ∷ cs) rest h =
    rw (split_from, h.0)
      (split-word (part ++ (c ∷ [])) cs rest h.1 ∙ rw (append_assoc part (c ∷ []) cs))

flush-IsWord : (w : Bytes) (parts : List Bytes) → IsWord w → flush w parts ≡ w ∷ parts
flush-IsWord [] parts h = absurd h
flush-IsWord (c ∷ cs) parts h = refl

word-NoSpace : (w : Bytes) → IsWord w → NoSpace w
word-NoSpace [] h = absurd h
word-NoSpace (c ∷ cs) h = h

no_newline : (c : ℕ) → is_whitespace c ≡ false → (c == b'\n') ≡ false
no_newline c h = ground arith

word-IsLine : (w rest : Bytes) → NoSpace w → IsLine rest → IsLine (w ++ rest)
word-IsLine [] rest h hr = hr
word-IsLine (c ∷ cs) rest h hr = (no_newline c h.0, word-IsLine cs rest h.1 hr)

entry-IsLine :
    (e : Entry) → IsWord e.device → IsWord e.path → IsLine e.options → IsLine (print_entry e)
entry-IsLine e hd hp ho =
    word-IsLine e.device _ (word-NoSpace e.device hd)
      (refl, word-IsLine e.path _ (word-NoSpace e.path hp) (refl, ho))

split-print_entry :
    (e : Entry)
    → IsWord e.device
    → IsWord e.path
    → split_whitespace (print_entry e) ≡ e.device ∷ e.path ∷ split_whitespace e.options
split-print_entry e hd hp =
    split-word [] e.device (e.path ++ (b' ' ∷ e.options)) (word-NoSpace e.device hd)
    ∙ flush-IsWord e.device _ hd
    ∙ ap (λ parts. e.device ∷ parts)
        (split-word [] e.path e.options (word-NoSpace e.path hp) ∙ flush-IsWord e.path _ hp)

-- From the text of a table of mounts, the mount point of a device is found that the table has first
-- for it, or none if it has none. (Devices and mount points are words, and no line has a newline in
-- it, as the kernel prints them.)
find_mount-print_mounts :
    (device : Bytes) (es : List Entry)
    → ArePrintable es
    → find_mount device (lines (print_mounts es)) ≡ lookup device es
unfolding lines
find_mount-print_mounts device [] h = refl
find_mount-print_mounts device (e ∷ es) (hd, hp, ho, hs) =
    rw (line-append (print_entry e) (print_mounts es) (entry-IsLine e hd hp ho)) (
      rw (find_mount, split-print_entry e hd hp)
        (elim (Bool-cases (eq_bytes e.device device)) [
          | inl same ↦ rw same
          | inr other ↦ rw other (find_mount-print_mounts device es hs)
        ]))
