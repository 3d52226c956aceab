-- ===== src/Web/Update/Interleaving/Sources.antt =====
-- application/src/web/update.rs: which upload a block of the DFU partition is from.
use cro_pduster.Prelude.{
  ℕ, ◌+◌, ◌-◌, ◌*◌, ◌%◌, ◌<◌, ◌≡◌, min, refl, ◌∙◌, inl, inr, true, ◌++◌, Bytes, length, get_or,
  replicate, ltb, ◌==◌, if◌then◌else◌, get_or-append, get_or-replicate, ==_iff, Bool-cases, arith,
}
use cro_pduster.Platform.{Heapless, Sha2, Base64, Ekv}
use cro_pduster.Platform.Updater.{Updater, IsUpdater, Reader}
use cro_pduster.Web.Update.Blocks.{filled-length}
use cro_pduster.Web.Update.Interleaving.{Upload, IsAccepted}

-- A body of `n` bytes, with `0xFF` behind them.
abbrev pub padded : ℕ → Bytes → ℕ → ℕ
padded n body p = if ltb p n then get_or body p 0 else 0xFF

-- The block that a round writes at `offset`, where `n` bytes of the body are `taken` before it.
filled-padded :
    (n remaining j : ℕ) (taken v rest : Bytes)
    → length taken + remaining ≡ n
    → length v ≡ min remaining 4096
    → j < 4096
    → get_or (v ++ replicate (4096 - min remaining 4096) 0xFF) j 0
      ≡ padded n (taken ++ (v ++ rest)) (length taken + j)
filled-padded n remaining j taken v rest h l b = ground (
  arith,
  get_or-append taken (v ++ rest) (length taken + j) 0,
  get_or-append v rest j 0,
  get_or-append v (replicate {A = ℕ} (4096 - min remaining 4096) 0xFF) j 0,
  get_or-replicate {A = ℕ} (4096 - min remaining 4096) 0xFF (j - length v) 0,
)

unscale : (k q : ℕ) → k * 4096 ≡ q * 4096 → k ≡ q
unscale k q h = omega arith

module _ (U : Updater) (R : Reader) (H : Heapless) (S : Sha2) (E : Ekv) (B : Base64) (d : E.Db)
    (uploads : ℕ → Upload R.Stream) where
  abbrev pub size : ℕ → ℕ
  size i = (uploads i).content_length

  -- Block `k` of the DFU partition is block `k` of upload `i`.
  abbrev pub IsBlockOf : ℕ → ℕ → U.Flash → Type 0
  IsBlockOf i k f =
      (j : ℕ)
      → j < 4096
      → U.dfu f (k * 4096 + j) ≡ padded (size i) (R.pending (uploads i).body) (k * 4096 + j)

  -- Block `k` is one of an upload that was accepted and has such a block.
  abbrev pub IsSourced : ℕ → U.Flash → Type 0
  IsSourced k f =
      (i : ℕ) × IsAccepted U R H S E B d uploads i × (k * 4096 < size i) × IsBlockOf i k f

  -- An upload was accepted, and each block that it covers is one of some accepted upload.
  abbrev pub IsCovered : U.Flash → Type 0
  IsCovered f =
      (i : ℕ) × IsAccepted U R H S E B d uploads i × ((k : ℕ) → k * 4096 < size i → IsSourced k f)

  -- What is sourced stays so from `f` to `g`.
  abbrev pub Keeps : U.Flash → U.Flash → Type 0
  Keeps f g = (k : ℕ) → IsSourced k f → IsSourced k g

  pub same-Keeps : (f g : U.Flash) → ((p : ℕ) → U.dfu g p ≡ U.dfu f p) → Keeps f g
  same-Keeps f g same k (i, a, b, c) = (i, a, b, λ j h. same (k * 4096 + j) ∙ c j h)

  module _ (L : IsUpdater U) where
    block_at :
        (offset k j : ℕ) (block : Bytes) (f : U.Flash)
        → offset % 4096 ≡ 0
        → length block ≡ 4096
        → j < 4096
        → (U.write_firmware offset block f).0 ≡ true
        → U.dfu (U.write_firmware offset block f).1 (k * 4096 + j)
          ≡ (if offset == k * 4096 then get_or block j 0 else U.dfu f (k * 4096 + j))
    block_at offset k j block f a l b w = L.dfu-write offset block f (k * 4096 + j) w ∙ ground arith

    -- An accepted block of task `i` is block `k` of its upload; the others stay.
    pub block-Keeps :
        (i k remaining : ℕ) (taken v rest : Bytes) (f : U.Flash)
        → let filled = v ++ replicate (4096 - min remaining 4096) 0xFF in
          let g = (U.write_firmware (k * 4096) filled f).1 in
          IsAccepted U R H S E B d uploads i
          → R.pending (uploads i).body ≡ taken ++ (v ++ rest)
          → length taken ≡ k * 4096
          → length taken + remaining ≡ size i
          → 0 < remaining
          → length v ≡ min remaining 4096
          → (U.write_firmware (k * 4096) filled f).0 ≡ true
          → IsSourced k g × Keeps f g
    block-Keeps i k remaining taken v rest f a body full left some_left l w =
        let filled = v ++ replicate (4096 - min remaining 4096) 0xFF in
        let g = (U.write_firmware (k * 4096) filled f).1 in
        let long = filled-length (min remaining 4096) v (omega arith) l in
        let own : IsSourced k g = (
          i,
          a,
          omega arith,
          λ j b.
              block_at (k * 4096) k j filled f (omega arith) long b w
              ∙ rw ((==_iff (k * 4096) (k * 4096)).1 refl, body, ← full)
                  (filled-padded (size i) remaining j taken v rest left l b),
        ) in
        (
          own,
          λ q (o, accepted, least, same). elim (Bool-cases (k * 4096 == q * 4096)) [
            | inl e ↦ rw (← unscale k q ((==_iff (k * 4096) (q * 4096)).0 e)) own
            | inr e ↦ (
              o,
              accepted,
              least,
              λ j b. block_at (k * 4096) q j filled f (omega arith) long b w ∙ rw e (same j b),
            )
          ],
        )
