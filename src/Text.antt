-- ===== src/Text.antt =====
-- The parts of Rust's `core` that the firmware and the host tool use on text: ASCII case and white
-- space, UTF-8 validation, search.
pub mod Search
use cro_pduster.Prelude.{
  ℕ, zero, suc, ◌+◌, Bool, true, false, ◌&&◌, ◌||◌, Option, none, some, List, [], ◌∷◌, Bytes, ltb,
  leb, ◌==◌, if◌then◌else◌,
}

abbrev pub to_ascii_lowercase : ℕ → ℕ
to_ascii_lowercase b = if leb 65 b && leb b 90 then b + 32 else b

-- `char::is_whitespace`, of ASCII.
abbrev pub is_whitespace : ℕ → Bool
is_whitespace c = c == 32 || (leb 9 c && leb c 13)

-- `<[u8]>::eq_ignore_ascii_case`
unfoldable pub eq_ignore_ascii_case : Bytes → Bytes → Bool
eq_ignore_ascii_case [] [] = true
eq_ignore_ascii_case [] (b ∷ bs) = false
eq_ignore_ascii_case (a ∷ as') [] = false
eq_ignore_ascii_case (a ∷ as') (b ∷ bs) =
    (to_ascii_lowercase a == to_ascii_lowercase b) && eq_ignore_ascii_case as' bs

abbrev is_within : ℕ → ℕ → ℕ → Bool
is_within lo hi b = leb lo b && leb b hi

-- What the decoder waits for: nothing, or a byte from `lo` to `hi` and then `more` bytes of
-- 0x80 to 0xBF.
pub data Pending : Type 0 where
  start : Pending
  expect : ℕ → ℕ → ℕ → Pending

abbrev lead : ℕ → Option Pending
lead b =
    if ltb b 0x80
    then some start
    else if is_within 0xC2 0xDF b
    then some (expect 0x80 0xBF 0)
    else if b == 0xE0
    then some (expect 0xA0 0xBF 1)
    else if b == 0xED
    then some (expect 0x80 0x9F 1)
    else if is_within 0xE1 0xEF b
    then some (expect 0x80 0xBF 1)
    else if b == 0xF0
    then some (expect 0x90 0xBF 2)
    else if is_within 0xF1 0xF3 b
    then some (expect 0x80 0xBF 2)
    else if b == 0xF4
    then some (expect 0x80 0x8F 2)
    else none

abbrev follow : ℕ → ℕ → ℕ → ℕ → Option Pending
follow lo hi more b =
    if is_within lo hi b
    then elim more [ zero ↦ some start | suc n ↦ some (expect 0x80 0xBF n) ]
    else none

abbrev next : Pending → ℕ → Option Pending
next start b = lead b
next (expect lo hi more) b = follow lo hi more b

unfoldable pub decodes : Option Pending → Bytes → Bool
decodes none bs = false
decodes (some start) [] = true
decodes (some (expect lo hi more)) [] = false
decodes (some p) (b ∷ bs) = decodes (next p b) bs

-- `core::str::from_utf8(bytes).is_ok()`
unfoldable pub is_utf8 : Bytes → Bool
unfolding decodes
is_utf8 bs = decodes (some start) bs

-- `str::find` of an ASCII character: the first index of the byte.
unfoldable pub find : ℕ → Bytes → Option ℕ
find c [] = none
find c (b ∷ bs) =
    let rest : Option ℕ = elim (find c bs) [ none ↦ none | some i ↦ some (suc i) ] in
    if b == c then some 0 else rest
