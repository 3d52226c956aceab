-- ===== src/Web/Update/Interleaving/Rounds.antt =====
-- application/src/web/update.rs: what a step of one task does to the blocks of all.
use cro_pduster.Prelude.{
  ℕ, zero, suc, ◌+◌, ◌-◌, ◌*◌, ◌%◌, ◌/◌, ◌≤◌, ◌<◌, ◌≡◌, ◌⊎◌, min, refl, sym, ap, ◌∙◌, inl, inr,
  true, false, some, [], ◌++◌, Bytes, codes, length, replicate, ◌==◌, length-append,
  length-replicate, append_assoc, ==_iff, Bool-cases, Option-cases, arith,
}
use cro_pduster.Platform.{Heapless, Sha2, Base64, Ekv}
use cro_pduster.Platform.Updater.{Updater, IsUpdater, IsTestedFirst, Reader, IsStream}
use cro_pduster.Outcome.{Result, err}
use cro_pduster.Web.Update.{erase_size}
use cro_pduster.Web.Update.Blocks.{fill-pad, filled-length, not_zero}
use cro_pduster.Web.Update.Interleaving.{
  Upload, UploadTask, waiting, writing, ended, begin, step_task, IsAccepted,
}
use cro_pduster.Web.Update.Interleaving.Sources.{
  size, IsSourced, IsCovered, Keeps, same-Keeps, block-Keeps,
}

module _ (U : Updater) (R : Reader) (H : Heapless) (S : Sha2) (E : Ekv) (B : Base64) (d : E.Db)
    (uploads : ℕ → Upload R.Stream) where
  -- Where the task of upload `i` stands.
  pub record IsWriting (i offset remaining : ℕ) (write_buf : Bytes) (body : R.Stream) (f : U.Flash)
      : Type 0 where
    accepted : IsAccepted U R H S E B d uploads i
    length_buf : length write_buf ≡ 4096
    taken : Bytes
    pending : R.pending (uploads i).body ≡ taken ++ R.pending body
    left : length taken + remaining ≡ size U R H S E B d uploads i
    aligned : offset % 4096 ≡ 0
    behind : length taken ≤ offset
    here_or_done : (offset ≡ length taken) ⊎ (remaining ≡ 0)
    sourced : (k : ℕ) → k * 4096 < offset → IsSourced U R H S E B d uploads k f

  abbrev pub IsTask : ℕ → U.Flash → UploadTask R.Stream → Type 0
  IsTask i f waiting = Unit {0}
  IsTask i f (writing offset remaining write_buf body) =
      IsWriting i offset remaining write_buf body f
  IsTask i f (ended r) = Unit {0}

  module _ (L : IsUpdater U) (T : IsTestedFirst U) (D : IsStream R) where
    pub Keeps-IsTask :
        (f g : U.Flash) (i : ℕ) (t : UploadTask R.Stream)
        → Keeps U R H S E B d uploads f g
        → IsTask i f t
        → IsTask i g t
    Keeps-IsTask f g i waiting keeps h = tt
    Keeps-IsTask f g i (writing offset remaining write_buf body) keeps h = record {
      accepted = h.accepted;
      length_buf = h.length_buf;
      taken = h.taken;
      pending = h.pending;
      left = h.left;
      aligned = h.aligned;
      behind = h.behind;
      here_or_done = h.here_or_done;
      sourced = λ k b. keeps k (h.sourced k b);
    }
    Keeps-IsTask f g i (ended r) keeps h = tt

    -- What a step from `f` is to come to: the task `t` and the flash `g`.
    abbrev pub IsStepOf : ℕ → U.Flash → UploadTask R.Stream × U.Flash → Type 0
    IsStepOf i f (t, g) =
        Keeps U R H S E B d uploads f g
        × IsTask i g t
        × (U.is_marked g ≡ true → U.is_marked f ≡ false → IsCovered U R H S E B d uploads g)

    pub not_marked :
        (f g : U.Flash)
        → U.is_marked g ≡ U.is_marked f
        → U.is_marked g ≡ true
        → U.is_marked f ≡ false
        → IsCovered U R H S E B d uploads g
    not_marked f g same m n = absurd (ground arith)

    written-IsStepOf :
        (i k m : ℕ) (write_buf v : Bytes) (body : R.Stream) (f : U.Flash)
        → let n = min (suc m) erase_size in
          let filled = v ++ replicate (4096 - n) 0xFF in
          IsWriting i (k * 4096) (suc m) write_buf body f
          → (R.read_exact n body).0 ≡ some v
          → (U.write_firmware (k * 4096) filled f).0 ≡ true
          → IsStepOf i f (
            writing (k * 4096 + 4096) (suc m - n) filled (R.read_exact n body).1,
            (U.write_firmware (k * 4096) filled f).1,
          )
    written-IsStepOf i k m write_buf v body f h read w =
        let n = min (suc m) erase_size in
        let l = D.length-read n body v read in
        let filled = v ++ replicate (4096 - n) 0xFF in
        let whole = h.pending ∙ ap (λ x. h.taken ++ x) (D.pending-read n body v read) in
        let full : length h.taken ≡ k * 4096 = ground (arith, h.here_or_done) in
        let (own, keeps) =
          block-Keeps U R H S E B d uploads L i k (suc m) h.taken v
            (R.pending (R.read_exact n body).1) f h.accepted whole full h.left (omega arith) l w in
        (
          keeps,
          record {
            accepted = h.accepted;
            length_buf = filled-length n v (omega arith) l;
            taken = h.taken ++ v;
            pending = whole ∙ sym (append_assoc h.taken v (R.pending (R.read_exact n body).1));
            left = omega (arith, length-append h.taken v, l, h.left);
            aligned = omega arith;
            behind = omega (arith, length-append h.taken v, l, full);
            here_or_done = ground (arith, length-append h.taken v, l, full);
            sourced = λ q b. elim (Bool-cases (q == k)) [
              | inl e ↦ rw ((==_iff q k).0 e) own
              | inr e ↦ keeps q (h.sourced q (ground arith))
            ];
          },
          not_marked f (U.write_firmware (k * 4096) filled f).1
              (L.marked-write (k * 4096) filled f),
        )

    -- A task that stops without a mark.
    stopped-IsStepOf :
        (i : ℕ) (r : Result Bytes (Unit {0})) (f g : U.Flash)
        → ((p : ℕ) → U.dfu g p ≡ U.dfu f p)
        → U.is_marked g ≡ U.is_marked f
        → IsStepOf i f (ended r, g)
    stopped-IsStepOf i r f g same m =
        (same-Keeps U R H S E B d uploads f g same, tt, not_marked f g m)

    round-IsStepOf :
        (i k m : ℕ) (write_buf : Bytes) (body : R.Stream) (f : U.Flash)
        → IsWriting i (k * 4096) (suc m) write_buf body f
        → IsStepOf i f (step_task U R (writing (k * 4096) (suc m) write_buf body) f)
    unfolding step_task
    round-IsStepOf i k m write_buf body f h =
        let n = min (suc m) erase_size in
        elim (Option-cases (R.read_exact n body).0) [
          | inl e ↦
              rw (not_zero m, e)
                (stopped-IsStepOf i (err (codes "Read error")) f f (λ p. refl) refl)
          | inr (v, e) ↦
              let fill_eq =
                fill-pad n v write_buf (omega arith) (D.length-read n body v e) h.length_buf in
              let g = (U.write_firmware (k * 4096) (v ++ replicate (4096 - n) 0xFF) f).1 in
              elim (Bool-cases (U.write_firmware (k * 4096) (v ++ replicate (4096 - n) 0xFF) f).0) [
                | inl w ↦
                    rw (not_zero m, e, fill_eq, w) (written-IsStepOf i k m write_buf v body f h e w)
                | inr w ↦
                    rw (not_zero m, e, fill_eq, w)
                      (stopped-IsStepOf i (err (codes "Flash write error")) f g
                        (λ p. T.dfu-refused _ _ f p w) (L.marked-write _ _ f))
              ]
        ]

    round_at :
        (i offset k m : ℕ) (write_buf : Bytes) (body : R.Stream) (f : U.Flash)
        → offset ≡ k * 4096
        → IsWriting i offset (suc m) write_buf body f
        → IsStepOf i f (step_task U R (writing offset (suc m) write_buf body) f)
    round_at i offset k m write_buf body f e h =
        rw e (round-IsStepOf i k m write_buf body f (rw (← e) h))

    mark-IsStepOf :
        (i offset : ℕ) (write_buf : Bytes) (body : R.Stream) (f : U.Flash)
        → IsWriting i offset 0 write_buf body f
        → IsStepOf i f (step_task U R (writing offset 0 write_buf body) f)
    unfolding step_task
    mark-IsStepOf i offset write_buf body f h =
        let g = (U.mark_updated f).1 in
        let keeps = same-Keeps U R H S E B d uploads f g (L.dfu-mark f) in
        (
          keeps,
          tt,
          λ m n. (i, h.accepted, λ k b. keeps k (h.sourced k (omega (arith, h.behind, h.left)))),
        )

    pub step_task-IsStepOf :
        (i : ℕ) (t : UploadTask R.Stream) (f : U.Flash)
        → IsTask i f t
        → IsStepOf i f (step_task U R t f)
    unfolding step_task
    step_task-IsStepOf i waiting f h = (λ k c. c, tt, not_marked f f refl)
    step_task-IsStepOf i (ended r) f h = (λ k c. c, tt, not_marked f f refl)
    step_task-IsStepOf i (writing offset zero write_buf body) f h =
        mark-IsStepOf i offset write_buf body f h
    step_task-IsStepOf i (writing offset (suc m) write_buf body) f h =
        round_at i offset (offset / 4096) m write_buf body f (omega (arith, h.aligned)) h

    pub begin-IsTask :
        (i : ℕ) (f : U.Flash) → IsAccepted U R H S E B d uploads i → IsTask i f (begin (uploads i))
    begin-IsTask i f a = record {
      accepted = a;
      length_buf = length-replicate {A = ℕ} erase_size 0;
      taken = [];
      pending = refl;
      left = omega arith;
      aligned = refl;
      behind = omega arith;
      here_or_done = inl refl;
      sourced = λ k b. absurd (omega arith);
    }
