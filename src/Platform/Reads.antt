-- ===== src/Platform/Reads.antt =====
-- On a reliable flash a read is determined by what is stored.
use cro_pduster.Prelude.{
  ℕ, ◌≡◌, Option, none, some, Bytes, length, leb, Option-cases, Bool-cases, inl, inr, arith,
  if◌then◌else◌,
}
use cro_pduster.Platform.{Ekv, IsAtomic, IsReliable}

-- What fits a buffer of `n` bytes.
abbrev pub fitting : ℕ → Option Bytes → Option Bytes
fitting n none = none
fitting n (some v) = if leb (length v) n then some v else none

module _ {E : Ekv} (L : IsAtomic E) (R : IsReliable E) where
  pub read_lem : (d : E.Db) (k : Bytes) (n : ℕ) → E.read d k n ≡ fitting n (E.stored d k)
  read_lem d k n = elim (Option-cases (E.read d k n)) [
    | inr (v, e) ↦ let (there, fits) = L.read-stored d k v n e in rw (e, there) (ground arith)
    | inl e ↦ elim (Option-cases (E.stored d k)) [
      | inl missing ↦ rw (e, missing)
      | inr (v, there) ↦
          rw (e, there)
            (elim (Bool-cases (leb (length v) n)) [
              | inl fits ↦ cc (e, R.read_ok d k v n there (ground arith))
              | inr big ↦ rw big
            ])
    ]
  ]
