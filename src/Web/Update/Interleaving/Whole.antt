-- ===== src/Web/Update/Interleaving/Whole.antt =====
-- application/src/web/update.rs: what is marked when uploads interleave.
use cro_pduster.Prelude.{ℕ, ◌≡◌, refl, inl, inr, true, false, ◌==◌, ==_iff, Bool-cases, arith}
use cro_pduster.Platform.{Heapless, Sha2, Base64, Ekv}
use cro_pduster.Platform.Updater.{Updater, IsUpdater, IsTestedFirst, Reader, IsStream}
use cro_pduster.Web.Update.Interleaving.{
  Upload, UploadTask, Server, begin, step_task, stepped, all_waiting, Step, accept, advance, Reach,
  here, next,
}
use cro_pduster.Web.Update.Interleaving.Sources.{IsCovered, Keeps}
use cro_pduster.Web.Update.Interleaving.Rounds.{
  IsTask, Keeps-IsTask, not_marked, step_task-IsStepOf, begin-IsTask,
}

module _ (U : Updater) (R : Reader) (H : Heapless) (S : Sha2) (E : Ekv) (B : Base64) (d : E.Db)
    (uploads : ℕ → Upload R.Stream) where
  record IsSafe (s : Server U.Flash R.Stream) : Type 0 where
    marked : U.is_marked s.flash ≡ true → IsCovered U R H S E B d uploads s.flash
    tasks : (i : ℕ) → IsTask U R H S E B d uploads i s.flash (s.tasks i)

  module _ (L : IsUpdater U) (T : IsTestedFirst U) (D : IsStream R) where
    -- A step of task `i` that ends at `t` and `g`.
    step-IsSafe :
        (s : Server U.Flash R.Stream) (i : ℕ) (t : UploadTask R.Stream) (g : U.Flash)
        → IsSafe s
        → Keeps U R H S E B d uploads s.flash g
        → IsTask U R H S E B d uploads i g t
        → (U.is_marked g ≡ true → U.is_marked s.flash ≡ false → IsCovered U R H S E B d uploads g)
        → IsSafe (stepped U R s i (t, g))
    step-IsSafe s i t g safe keeps h m = record {
      marked = λ e. elim (Bool-cases (U.is_marked s.flash)) [
        | inl old ↦ let (j, a, c) = safe.marked old in (j, a, λ k b. keeps k (c k b))
        | inr new ↦ m e new
      ];
      tasks = λ j. elim (Bool-cases (i == j)) [
        | inl e ↦ rw (e, ← (==_iff i j).0 e) h
        | inr e ↦
            rw e (
              Keeps-IsTask U R H S E B d uploads L T D s.flash g j (s.tasks j) keeps (safe.tasks j))
      ];
    }

    Step-IsSafe :
        {s t : Server U.Flash R.Stream} → Step U R H S E B d uploads s t → IsSafe s → IsSafe t
    Step-IsSafe {s} (accept i a e) safe =
        step-IsSafe s i (begin (uploads i)) s.flash safe (λ k c. c)
          (begin-IsTask U R H S E B d uploads L T D i s.flash a)
          (not_marked U R H S E B d uploads L T D s.flash s.flash refl)
    Step-IsSafe {s} (advance i) safe =
        let (keeps, task, marks) =
          step_task-IsStepOf U R H S E B d uploads L T D i (s.tasks i) s.flash (safe.tasks i) in
        step-IsSafe s i (step_task U R (s.tasks i) s.flash).0 (step_task U R (s.tasks i) s.flash).1
          safe keeps task marks

    Reach-IsSafe :
        {s t : Server U.Flash R.Stream} → Reach U R H S E B d uploads s t → IsSafe s → IsSafe t
    Reach-IsSafe here safe = safe
    Reach-IsSafe (next r st) safe = Step-IsSafe st (Reach-IsSafe r safe)

    -- However uploads interleave, and whatever faults the flash and the connections have: once the
    -- flash is marked, where it was not, there is an upload of an administrator such that each erase
    -- block it covers holds the block in that place of an administrator's upload, this one or another:
    -- the bytes of its body, with `0xFF` behind them. No block is torn. (A write that is refused leaves
    -- the partition as it was.)
    pub marked_blocks_whole :
        (f : U.Flash) (s : Server U.Flash R.Stream)
        → Reach U R H S E B d uploads (all_waiting U R f) s
        → U.is_marked f ≡ false
        → U.is_marked s.flash ≡ true
        → IsCovered U R H S E B d uploads s.flash
    marked_blocks_whole f s r unmarked =
        let safe =
          Reach-IsSafe r (record { marked = λ m. absurd (ground arith); tasks = λ i. tt }) in
        safe.marked
