-- ===== src/Platform/Faulty.antt =====
-- The database in memory, with a flash that is blank at first and that fails after a number of
-- commits: a value that meets the laws of an atomic store, but not of a reliable one.
use cro_pduster.Prelude.{ℕ, ◌-◌, refl, Bool, true, false, ◌==◌, if◌then◌else◌, arith}
use cro_pduster.Platform.{Ekv, IsAtomic}
use cro_pduster.Platform.Memory.{ekv, ekv-IsAtomic}

pub record Faulty : Type 0 where
  pub formatted : Bool
  pub commits_left : ℕ
  pub table : ekv.Db

pub record FaultyWtx : Type 0 where
  db : Faulty
  wtx : ekv.Wtx

abbrev commit : FaultyWtx → Bool × Faulty
commit w =
    if w.db.commits_left == 0
    then (false, record w.db { table = ekv.rollback w.wtx })
    else (true, record w.db { commits_left = w.db.commits_left - 1; table = (ekv.commit w.wtx).1 })

abbrev pub faulty : Ekv
faulty = record {
  Db = Faulty;
  Wtx = FaultyWtx;
  mount = λ d. (d.formatted, d);
  format = λ d. (true, record d { formatted = true; table = (ekv.format d.table).1 });
  read = λ d k n. ekv.read d.table k n;
  begin = λ d. record { db = d; wtx = ekv.begin d.table };
  write = λ w k v. ((ekv.write w.wtx k v).0, record w { wtx = (ekv.write w.wtx k v).1 });
  commit = commit;
  rollback = λ w. record w.db { table = ekv.rollback w.wtx };
  stored = λ d. ekv.stored d.table;
  staged = λ w. ekv.staged w.wtx;
  original = λ w. ekv.original w.wtx;
  last_key = λ w. ekv.last_key w.wtx;
}

pub faulty-IsAtomic : IsAtomic faulty
faulty-IsAtomic = record {
  read-stored = λ d k v n h. ekv-IsAtomic.read-stored d.table k v n h;
  staged-begin = λ d k. refl;
  original-begin = λ d k. refl;
  staged-write = λ w k v j. ekv-IsAtomic.staged-write w.wtx k v j;
  original-write = λ w k v j. ekv-IsAtomic.original-write w.wtx k v j;
  stored-commit = λ w j. ground arith;
  stored-rollback = λ w j. refl;
  stored-format = λ d j h. refl;
  stored-mount = λ d j h. refl;
}
