-- ===== src/Platform/Partition.antt =====
-- A DFU partition and a connection in memory: values that meet the laws of Platform.Updater.
use cro_pduster.Prelude.{
  ℕ, ◌+◌, ◌-◌, refl, Bool, true, none, some, Option, [], Bytes, length, get_or, take, drop, leb,
  ltb, ◌&&◌, if◌then◌else◌, length-take, take-append-drop, arith,
}
use cro_pduster.Platform.Updater.{Updater, IsUpdater, IsTestedFirst, Reader, IsStream}

abbrev Partition : Type 0
Partition = (ℕ → ℕ) × Bool

abbrev pub updater : Updater
updater = record {
  Flash = Partition;
  aligned_size = 4096;
  write_firmware = λ offset block f. (
    true,
    (
      λ i.
          if leb offset i && ltb i (offset + length block)
          then get_or block (i - offset) 0
          else f.0 i,
      f.1,
    ),
  );
  mark_updated = λ f. (true, (f.0, true));
  dfu = λ f. f.0;
  is_marked = λ f. f.1;
}

pub updater-IsUpdater : IsUpdater updater
updater-IsUpdater = record {
  dfu-write = λ offset block f i h. refl;
  marked-write = λ offset block f. refl;
  dfu-mark = λ f i. refl;
}

pub updater-IsTestedFirst : IsTestedFirst updater
updater-IsTestedFirst = record { dfu-refused = λ offset block f i h. absurd cc }

abbrev read_some : ℕ → Bytes → Option Bytes × Bytes
read_some n s = if leb n (length s) then (some (take n s), drop n s) else (none, [])

abbrev pub reader : Reader
reader = record { Stream = Bytes; read_exact = read_some; pending = λ s. s }

pub reader-IsStream : IsStream reader
reader-IsStream = record {
  length-read = λ n s v h. ground (arith, length-take n s);
  pending-read = λ n s v h. ground (arith, take-append-drop n s);
}
