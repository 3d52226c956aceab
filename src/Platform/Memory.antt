-- ===== src/Platform/Memory.antt =====
-- The external interfaces in memory: values that show that their laws can be met.
use cro_pduster.Prelude.{
  ℕ, ◌+◌, ◌≤◌, ◌≡◌, refl, Bool, true, false, Option, none, some, List, [], ◌∷◌, ◌++◌, Bytes, length,
  replicate, eq_bytes, lt_bytes, leb, ltb, ◌&&◌, if◌then◌else◌, arith,
}
use cro_pduster.Platform.{
  Heapless, IsBounded, Sha2, IsDigest, Base64, IsCodec, Ekv, IsAfter, IsAtomic, IsReliable, Signal,
  IsLatest,
}

abbrev pub heapless : Heapless
heapless = record {
  extend_from_slice = λ n v s. if leb (length v + length s) n then some (v ++ s) else none;
  push = λ n v b. if ltb (length v) n then some (v ++ (b ∷ [])) else none;
}

pub heapless-IsBounded : IsBounded heapless
heapless-IsBounded = record {
  extend_fits = λ n v s h. ground arith;
  extend_full = λ n v s h. ground arith;
  push_fits = λ n v b h. ground arith;
  push_full = λ n v b h. ground arith;
}

-- A digest of the right length: the sum of the bytes, padded.
abbrev sum : Bytes → ℕ
sum [] = 1
sum (b ∷ bs) = b + sum bs

abbrev pub sha2 : Sha2
sha2 = record { sha256 = λ m. sum m ∷ replicate 31 0 }

pub sha2-IsDigest : IsDigest sha2
sha2-IsDigest = record { length-sha256 = λ m. refl }

-- Not base64, but a codec with the law: the identity.
abbrev pub base64 : Base64
base64 = record { encode = λ m. m; decode_slice = λ t n. if leb (length t) n then some t else none }

pub base64-IsCodec : IsCodec base64
base64-IsCodec = record {
  decode-encode = λ m n h. ground arith;
  decode_fits = λ t m n h. ground arith;
}

abbrev Table : Type 0
Table = List (Bytes × Bytes)

abbrev find : Table → Bytes → Option Bytes
find [] j = none
find ((k, v) ∷ t) j = if eq_bytes k j then some v else find t j

abbrev fits : Option Bytes → ℕ → Option Bytes
fits none n = none
fits (some v) n = if leb (length v) n then some v else none

abbrev is_after : Option Bytes → Bytes → Bool
is_after none k = true
is_after (some j) k = lt_bytes j k

pub record Open : Type 0 where
  before : Table
  after : Table
  last : Option Bytes

abbrev write : Open → Bytes → Bytes → Bool × Open
write w k v =
    if is_after w.last k && leb (length k) 64 && leb (length v) 256
    then (true, record { before = w.before; after = (k, v) ∷ w.after; last = some k })
    else (false, w)

abbrev pub ekv : Ekv
ekv = record {
  Db = Table;
  Wtx = Open;
  mount = λ d. (true, d);
  format = λ d. (true, []);
  read = λ d k n. fits (find d k) n;
  begin = λ d. record { before = d; after = d; last = none };
  write = write;
  commit = λ w. (true, w.after);
  rollback = λ w. w.before;
  stored = find;
  staged = λ w. find w.after;
  original = λ w. find w.before;
  last_key = λ w. w.last;
}

fits-some :
    (o : Option Bytes) (n : ℕ) (v : Bytes) → fits o n ≡ some v → (o ≡ some v) × (length v ≤ n)
fits-some none n v h = cc
fits-some (some u) n v h = ground arith

pub ekv-IsAtomic : IsAtomic ekv
ekv-IsAtomic = record {
  read-stored = λ d k v n h. fits-some (find d k) n v h;
  staged-begin = λ d k. refl;
  original-begin = λ d k. refl;
  staged-write = λ w k v j. ground arith;
  original-write = λ w k v j. ground arith;
  stored-commit = λ w j. refl;
  stored-rollback = λ w j. refl;
  stored-format = λ d j h. refl;
  stored-mount = λ d j h. refl;
}

is_after_iff : (o : Option Bytes) (k : Bytes) → IsAfter o k → is_after o k ≡ true
is_after_iff none k h = refl
is_after_iff (some j) k h = h

pub ekv-IsReliable : IsReliable ekv
ekv-IsReliable = record {
  read_ok = λ d k v n e h. ground arith;
  last_key-begin = λ d. refl;
  last_key-write = λ w k v h. ground arith;
  write_ok = λ w k v a hk hv. ground (arith, is_after_iff w.last k a);
  commit_ok = λ w. refl;
  format_ok = λ d. refl;
}

abbrev pub signal : (A : Type 0) → Signal A
signal A = record { Slot = Option A; new = none; signal = λ a s. some a; try_take = λ s. (s, none) }

pub signal-IsLatest : (A : Type 0) → IsLatest (signal A)
signal-IsLatest A = record { take-new = refl; take-signal = λ a s. refl; take_empties = λ s. refl }
