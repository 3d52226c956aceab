-- ===== src/Xtask/Drive/Wait.antt =====
-- xtask/src/main.rs: the wait for the drive ends, with what the first round that finds it gives.
use cro_pduster.Prelude.{
  Option, Bool, ℕ, zero, suc, ◌+◌, ◌*◌, ◌≤◌, ◌<◌, ◌≡◌, refl, none, some, Bytes, ltb, Bool-cases,
  Option-cases, inl, inr, arith, ltb→lt,
}
use cro_pduster.Outcome.{Result, err}
use cro_pduster.Xtask.Drive.{
  wait_for, try_volume, wait_for_volume, Look, DriveError, timed_out, try_round, sleep_ms, wait,
  wait_for_rpi_rp2,
}

-- When a round begins, if the loop gets to it.
abbrev pub begins : (ℕ → ℕ) → ℕ → ℕ
begins takes zero = 0
begins takes (suc i) = begins takes i + takes i + sleep_ms

-- The rounds before `n` do not return.
abbrev pub NothingBefore : (ℕ → Option (Result DriveError Bytes)) → ℕ → Type 0
NothingBefore attempt n = (j : ℕ) → j < n → attempt j ≡ none

-- How the wait ends: with the first round that returns, if it begins before the deadline; otherwise
-- by the deadline.
pub data Ends (attempt : ℕ → Option (Result DriveError Bytes)) (takes : ℕ → ℕ) (deadline : ℕ)
    (r : Result DriveError Bytes) : Type 0 where
  found :
      (i : ℕ)
      → begins takes i < deadline
      → NothingBefore attempt i
      → attempt i ≡ some r
      → Ends attempt takes deadline r
  late :
      (i : ℕ)
      → deadline ≤ begins takes i
      → NothingBefore attempt i
      → r ≡ err timed_out
      → Ends attempt takes deadline r

module _ (attempt : ℕ → Option (Result DriveError Bytes)) (takes : ℕ → ℕ) where
  one_more : (i : ℕ) → NothingBefore attempt i → attempt i ≡ none → NothingBefore attempt (suc i)
  one_more i h e j lt = elim (Bool-cases (ltb j i)) [
    | inl less ↦ h j (ltb→lt _ _ less)
    | inr more ↦ let same : j ≡ i = ground arith in rw same e
  ]

  wait-Ends :
      (deadline fuel i : ℕ)
      → deadline ≤ begins takes i + 500 * fuel
      → NothingBefore attempt i
      → (r : Result DriveError Bytes) × (wait (suc fuel) attempt takes deadline (begins takes i) i
          ≡ some r)
        × Ends attempt takes deadline r
  unfolding wait
  wait-Ends deadline zero i enough h = (err timed_out, ground arith, late i (omega arith) h refl)
  wait-Ends deadline (suc fuel) i enough h = elim (Bool-cases (ltb (begins takes i) deadline)) [
    | inr e ↦ (err timed_out, rw e, late i (ground arith) h refl)
    | inl e ↦ elim (Option-cases (attempt i)) [
      | inr (r, t) ↦ (r, rw (e, t), found i (ltb→lt _ _ e) h t)
      | inl t ↦
          let (r, ran, ends) = wait-Ends deadline fuel (suc i) (omega arith) (one_more i h t) in
          (r, rw (e, t) ran, ends)
    ]
  ]

  wait_for-Ends :
      (timeout_secs : ℕ)
      → (r : Result DriveError Bytes) × (wait_for attempt takes timeout_secs ≡ some r)
        × Ends attempt takes (1000 * timeout_secs) r
  wait_for-Ends timeout_secs =
      wait-Ends (1000 * timeout_secs) (2 * timeout_secs) 0 (omega arith)
        (λ j lt. absurd (omega arith))

-- Whatever the system shows, on Linux and on macOS, the wait for the drive ends, with what the first
-- round gives that finds the drive, or, on Linux, fails to make a directory or to get a shell, if that
-- round begins before the deadline; otherwise it ends by the deadline as timed out. (A sleep lasts at
-- least as long as asked.)
pub wait_for_rpi_rp2-Ends :
    (temp_dir : Bytes) (looks : ℕ → Look) (exists : ℕ → Bool) (takes : ℕ → ℕ) (timeout_secs : ℕ)
    → ((r : Result DriveError Bytes) × (wait_for_rpi_rp2 temp_dir looks timeout_secs ≡ some r)
        × Ends (λ i. try_round temp_dir (looks i)) (λ i. (looks i).takes) (1000 * timeout_secs) r)
      × ((r : Result DriveError Bytes) × (wait_for_volume exists takes timeout_secs ≡ some r)
          × Ends (λ i. try_volume (exists i)) takes (1000 * timeout_secs) r)
unfolding wait_for_rpi_rp2 wait_for_volume
wait_for_rpi_rp2-Ends temp_dir looks exists takes timeout_secs = (
  wait_for-Ends (λ i. try_round temp_dir (looks i)) (λ i. (looks i).takes) timeout_secs,
  wait_for-Ends (λ i. try_volume (exists i)) takes timeout_secs,
)
