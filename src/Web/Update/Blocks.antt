-- ===== src/Web/Update/Blocks.antt =====
-- application/src/web/update.rs: what the loop of `write_firmware_streaming` writes.
use cro_pduster.Prelude.{
  ℕ, zero, suc, ◌+◌, ◌-◌, ◌*◌, ◌/◌, ◌≤◌, ◌<◌, ◌≡◌, ◌≢◌, min, refl, inl, inr, true, false, none,
  some, [], ◌++◌, Bytes, length, get_or, replicate, ltb, leb, ◌&&◌, ◌⊎◌, ◌==◌, length-append,
  length-replicate, drop-take-append, get_or-append, get_or-replicate, append_assoc, Bool-cases,
  Option-cases, arith, codes, ◌∙◌, ap, sym, if◌then◌else◌,
}
use cro_pduster.Platform.Updater.{Updater, IsUpdater, Reader, IsStream}
use cro_pduster.Outcome.{Result, ok, err, panic}
use cro_pduster.Web.Update.{erase_size, pad, fill, Transfer, write_blocks}

-- The size of the erase blocks that hold `n` bytes.
abbrev pub block_end : ℕ → ℕ
block_end n = (n + 4095) / 4096 * 4096

-- The DFU partition once `received` was written at `offset`, padded with `0xFF` to whole blocks.
abbrev pub image : ℕ → Bytes → (ℕ → ℕ) → ℕ → ℕ
image offset received old i =
    if ltb i offset
    then old i
    else (if ltb i (offset + length received)
        then get_or received (i - offset) 0
        else (if ltb i (offset + block_end (length received)) then 0xFF else old i))

-- From `t` to `t'`, `n` bytes of the body were taken and written at `offset`.
pub record IsWritten (U : Updater) (R : Reader) (offset n : ℕ) (t t' : Transfer U R) : Type 0 where
  pub received : Bytes
  pub length_received : length received ≡ n
  pub taken : R.pending t.0 ≡ received ++ R.pending t'.0
  pub dfu_image : (i : ℕ) → U.dfu t'.1 i ≡ image offset received (U.dfu t.1) i

-- A run of the loop that ends with `p`: it does not panic, it marks nothing, and where it ends well
-- all the bytes are written.
pub record IsRun (U : Updater) (R : Reader) (offset n : ℕ) (t : Transfer U R)
    (p : Result Bytes (Unit {0}) × Transfer U R) : Type 0 where
  pub no_panic : p.0 ≢ panic
  pub marked : U.is_marked p.1.1 ≡ U.is_marked t.1
  pub written : p.0 ≡ ok tt → IsWritten U R offset n t p.1

-- The block that a round writes is the bytes read, and `0xFF` behind them.
pub fill-pad :
    (n : ℕ) (received write_buf : Bytes)
    → n ≤ 4096
    → length received ≡ n
    → length write_buf ≡ 4096
    → fill n received (pad n write_buf) ≡ received ++ replicate (4096 - n) 0xFF
fill-pad n received write_buf h e b =
    rw (drop-take-append n write_buf (replicate (4096 - n) 0xFF) (omega arith))

pub filled-length :
    (n : ℕ) (v : Bytes) → n ≤ 4096 → length v ≡ n → length (v ++ replicate (4096 - n) 0xFF) ≡ 4096
filled-length n v h l = omega (
  arith,
  length-append v (replicate {A = ℕ} (4096 - n) 0xFF),
  length-replicate {A = ℕ} (4096 - n) 0xFF,
  l,
)

block_end_step :
    (m n : ℕ) → (m ≡ 4096) ⊎ (n ≡ 0) → 0 < m → m ≤ 4096 → block_end (m + n) ≡ 4096 + block_end n
block_end_step m n c p q = elim c [ inl e ↦ omega arith | inr e ↦ omega arith ]

image-step :
    (offset n : ℕ) (v r : Bytes) (old mid : ℕ → ℕ) (i : ℕ)
    → length v ≡ n
    → (n ≡ 4096) ⊎ (length r ≡ 0)
    → 0 < n
    → n ≤ 4096
    → mid i ≡ (
        if leb offset i && ltb i (offset + length (v ++ replicate (4096 - n) 0xFF))
        then get_or (v ++ replicate (4096 - n) 0xFF) (i - offset) 0
        else old i)
    → image (offset + 4096) r mid i ≡ image offset (v ++ r) old i
image-step offset n v r old mid i l c p q e = ground (
  arith,
  length-append v r,
  length-append v (replicate {A = ℕ} (4096 - n) 0xFF),
  length-replicate {A = ℕ} (4096 - n) 0xFF,
  get_or-append v r (i - offset) 0,
  get_or-append v (replicate {A = ℕ} (4096 - n) 0xFF) (i - offset) 0,
  get_or-replicate {A = ℕ} (4096 - n) 0xFF (i - offset - n) 0,
  block_end_step n (length r) c p q,
)

pub not_zero : (m : ℕ) → (suc m == 0) ≡ false
not_zero m = ground arith

-- The state of the transfer after one round.
abbrev pub after_round : (U : Updater) (R : Reader) → ℕ → ℕ → Bytes → Transfer U R → Transfer U R
after_round U R offset n filled (s, f) =
    ((R.read_exact n s).1, (U.write_firmware offset filled f).1)

module _ (U : Updater) (R : Reader) where
  none-IsWritten : (offset : ℕ) (t : Transfer U R) → IsWritten U R offset 0 t t
  none-IsWritten offset t = record {
    received = [];
    length_received = refl;
    taken = refl;
    dfu_image = λ i. ground arith;
  }

  pub write_blocks-end :
      (fuel offset : ℕ) (write_buf : Bytes) (t : Transfer U R)
      → write_blocks U R fuel offset 0 write_buf t ≡ (ok tt, t)
  unfolding write_blocks
  write_blocks-end zero offset write_buf t = refl
  write_blocks-end (suc fuel) offset write_buf t = refl

  -- A round that reads `v` writes it, padded, and goes on.
  pub write_blocks-round :
      (fuel offset m : ℕ) (write_buf v : Bytes) (t : Transfer U R)
      → let n = min (suc m) erase_size in
        let filled = v ++ replicate (4096 - n) 0xFF in
        length write_buf ≡ 4096
        → length v ≡ n
        → (R.read_exact n t.0).0 ≡ some v
        → write_blocks U R (suc fuel) offset (suc m) write_buf t ≡ (
            if (U.write_firmware offset filled t.1).0
            then write_blocks U R fuel
                (offset + 4096)
                (suc m - n)
                filled
                (after_round U R offset n filled t)
            else (err (codes "Flash write error"), after_round U R offset n filled t))
  unfolding write_blocks
  write_blocks-round fuel offset m write_buf v (s, f) b l e =
      let n = min (suc m) erase_size in
      let fill_eq = fill-pad n v write_buf (omega arith) l b in
      elim (Bool-cases (U.write_firmware offset (v ++ replicate (4096 - n) 0xFF) f).0) [
        | inl w ↦ rw (not_zero m, e, fill_eq, w)
        | inr w ↦ rw (not_zero m, e, fill_eq, w)
      ]

  pub write_blocks-read_error :
      (fuel offset m : ℕ) (write_buf : Bytes) (t : Transfer U R)
      → (R.read_exact (min (suc m) erase_size) t.0).0 ≡ none
      → write_blocks U R (suc fuel) offset (suc m) write_buf t
        ≡ (err (codes "Read error"), ((R.read_exact (min (suc m) erase_size) t.0).1, t.1))
  unfolding write_blocks
  write_blocks-read_error fuel offset m write_buf (s, f) e = rw (not_zero m, e)

module _ {U : Updater} {R : Reader} (L : IsUpdater U) (D : IsStream R) where
  -- One round, and then the rest.
  round-IsWritten :
      (offset m n : ℕ) (v : Bytes) (t t' : Transfer U R)
      → let filled = v ++ replicate (4096 - n) 0xFF in
        n ≡ min (suc m) erase_size
        → (R.read_exact n t.0).0 ≡ some v
        → (U.write_firmware offset filled t.1).0 ≡ true
        → IsWritten U R (offset + 4096) (suc m - n) (after_round U R offset n filled t) t'
        → IsWritten U R offset (suc m) t t'
  round-IsWritten offset m n v (s, f) t' p read written w =
      let l = D.length-read n s v read in
      let filled = v ++ replicate (4096 - n) 0xFF in
      record {
        received = v ++ w.received;
        length_received = omega (arith, length-append v w.received, w.length_received, l);
        taken =
            D.pending-read n s v read
            ∙ ap (λ x. v ++ x) w.taken
            ∙ sym (append_assoc v w.received (R.pending t'.0));
        dfu_image = λ i.
            w.dfu_image i
            ∙ image-step offset n v w.received (U.dfu f)
                (U.dfu (U.write_firmware offset filled f).1) i l (ground (arith, w.length_received))
                (omega arith) (omega arith) (L.dfu-write offset filled f i written);
      }

  stopped-IsRun :
      (offset n : ℕ) (e : Bytes) (t t' : Transfer U R)
      → U.is_marked t'.1 ≡ U.is_marked t.1
      → IsRun U R offset n t (err e, t')
  stopped-IsRun offset n e t t' m = record { no_panic = cc; marked = m; written = λ h. cc }

  pub write_blocks-IsRun :
      (fuel offset remaining : ℕ) (write_buf : Bytes) (t : Transfer U R)
      → remaining ≤ fuel
      → length write_buf ≡ 4096
      → IsRun U R offset remaining t (write_blocks U R fuel offset remaining write_buf t)
  write_blocks-IsRun fuel offset zero write_buf t h b =
      rw (write_blocks-end U R fuel offset write_buf t)
        record { no_panic = cc; marked = refl; written = λ e. none-IsWritten U R offset t }
  write_blocks-IsRun zero offset (suc m) write_buf t h b = absurd (omega arith)
  write_blocks-IsRun (suc fuel) offset (suc m) write_buf t h b =
      let n = min (suc m) erase_size in
      elim (Option-cases (R.read_exact n t.0).0) [
        | inl e ↦
            rw (write_blocks-read_error U R fuel offset m write_buf t e)
              (stopped-IsRun offset (suc m) _ t _ refl)
        | inr (v, e) ↦
            let l = D.length-read n t.0 v e in
            let filled = v ++ replicate (4096 - n) 0xFF in
            let marked = L.marked-write offset filled t.1 in
            elim (Bool-cases (U.write_firmware offset filled t.1).0) [
              | inl w ↦
                  let rest =
                    write_blocks-IsRun fuel (offset + 4096) (suc m - n) filled
                      (after_round U R offset n filled t) (omega arith)
                      (filled-length n v (omega arith) l) in
                  rw (write_blocks-round U R fuel offset m write_buf v t b l e, w)
                    record {
                      no_panic = rest.no_panic;
                      marked = rest.marked ∙ marked;
                      written = λ g. round-IsWritten offset m n v t _ refl e w (rest.written g);
                    }
              | inr w ↦
                  rw (write_blocks-round U R fuel offset m write_buf v t b l e, w)
                    (stopped-IsRun offset (suc m) _ t _ marked)
            ]
      ]
