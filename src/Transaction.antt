-- ===== src/Transaction.antt =====
-- A write transaction as the firmware runs them: `write_transaction`, the writes in order with
-- `?` (or `unwrap`) behind each, and `commit`. A transaction that is not committed is dropped.
pub mod Laws
use cro_pduster.Prelude.{Bool, true, false, List, [], ◌∷◌, Bytes, if◌then◌else◌}
use cro_pduster.Platform.{Ekv}
use cro_pduster.Outcome.{Result, ok, Action}

abbrev pub Entries : Type 0
Entries = List (Bytes × Bytes)

module _ (E : Ekv) where
  unfoldable pub write_each : Entries → E.Wtx → Bool × E.Wtx
  write_each [] w = (true, w)
  write_each ((k, v) ∷ entries) w =
      let (done, w') = E.write w k v in if done then write_each entries w' else (false, w')

  -- `on_write` and `on_commit` say how the caller ends when a write or the commit fails.
  abbrev pub finish : {X : Type 0} → Result X (Unit {0}) → E.Wtx → Result X (Unit {0}) × E.Db
  finish on_commit w = let (done, d) = E.commit w in (if done then ok tt else on_commit, d)

  unfoldable pub transaction :
      {X : Type 0} → Result X (Unit {0}) → Result X (Unit {0}) → Entries → Action E.Db X (Unit {0})
  unfolding write_each
  transaction on_write on_commit entries d =
      let (done, w) = write_each entries (E.begin d) in
      if done then finish on_commit w else (on_write, E.rollback w)
