-- ===== src/Platform.antt =====
-- The crates that the firmware calls and that are not part of the repository: heapless, sha2,
-- base64 and ekv. Each is a record of operations with its documented laws.
pub mod Memory
pub mod Faulty
pub mod Reads
pub mod Updater
pub mod Partition
pub mod Bootloader
pub mod Swap
use cro_pduster.Prelude.{
  ℕ, ◌+◌, ◌≤◌, ◌<◌, ◌≡◌, ◌⊎◌, leb, ltb, ◌&&◌, get_or, Bool, true, false, Option, none, some, List,
  [], ◌∷◌, ◌++◌, Bytes, length, eq_bytes, lt_bytes, if◌then◌else◌,
}

-- heapless: a vector of at most `n` bytes. `none` is the `Err` of a full vector.
pub record Heapless : Type 0 where
  pub extend_from_slice : ℕ → Bytes → Bytes → Option Bytes
  pub push : ℕ → Bytes → ℕ → Option Bytes

pub record IsBounded (H : Heapless) : Type 0 where
  pub extend_fits :
      (n : ℕ) (v s : Bytes) → length v + length s ≤ n → H.extend_from_slice n v s ≡ some (v ++ s)
  pub extend_full :
      (n : ℕ) (v s : Bytes) → n < length v + length s → H.extend_from_slice n v s ≡ none
  pub push_fits : (n : ℕ) (v : Bytes) (b : ℕ) → length v < n → H.push n v b ≡ some (v ++ (b ∷ []))
  pub push_full : (n : ℕ) (v : Bytes) (b : ℕ) → n ≤ length v → H.push n v b ≡ none

-- sha2: the digest of a message.
pub record Sha2 : Type 0 where
  pub sha256 : Bytes → Bytes

pub record IsDigest (S : Sha2) : Type 0 where
  pub length-sha256 : (m : Bytes) → length (S.sha256 m) ≡ 32

-- base64, standard alphabet: `decode_slice text n` decodes into a buffer of `n` bytes.
pub record Base64 : Type 0 where
  pub encode : Bytes → Bytes
  pub decode_slice : Bytes → ℕ → Option Bytes

pub record IsCodec (B : Base64) : Type 0 where
  pub decode-encode : (m : Bytes) (n : ℕ) → length m ≤ n → B.decode_slice (B.encode m) n ≡ some m
  pub decode_fits : (t m : Bytes) (n : ℕ) → B.decode_slice t n ≡ some m → length m ≤ n

-- ekv: a key-value database on flash. `Db` is what the flash holds, `Wtx` an open write
-- transaction. A `false` or `none` is any `Err` of the call. `rollback` is the drop of a
-- transaction that was not committed.
pub record Ekv : Type 1 where
  pub Db : Type 0
  pub Wtx : Type 0
  pub mount : Db → Bool × Db
  pub format : Db → Bool × Db
  pub read : Db → Bytes → ℕ → Option Bytes
  pub begin : Db → Wtx
  pub write : Wtx → Bytes → Bytes → Bool × Wtx
  pub commit : Wtx → Bool × Db
  pub rollback : Wtx → Db
  -- What the database stores, what it will store after a commit, what it stored before the
  -- transaction, and the last key written in it.
  pub stored : Db → Bytes → Option Bytes
  pub staged : Wtx → Bytes → Option Bytes
  pub original : Wtx → Bytes → Option Bytes
  pub last_key : Wtx → Option Bytes

-- Keys are written in ascending order.
abbrev pub IsAfter : Option Bytes → Bytes → Type 0
IsAfter none k = Unit
IsAfter (some j) k = lt_bytes j k ≡ true

-- Transactions are atomic, and a read that succeeds returns what is stored.
pub record IsAtomic (E : Ekv) : Type 0 where
  pub read-stored :
      (d : E.Db) (k v : Bytes) (n : ℕ)
      → E.read d k n ≡ some v
      → (E.stored d k ≡ some v) × (length v ≤ n)
  pub staged-begin : (d : E.Db) (k : Bytes) → E.staged (E.begin d) k ≡ E.stored d k
  pub original-begin : (d : E.Db) (k : Bytes) → E.original (E.begin d) k ≡ E.stored d k
  pub staged-write :
      (w : E.Wtx) (k v j : Bytes)
      → E.staged (E.write w k v).1 j ≡ (
          if (E.write w k v).0
          then (if eq_bytes k j then some v else E.staged w j)
          else E.staged w j)
  pub original-write : (w : E.Wtx) (k v j : Bytes) → E.original (E.write w k v).1 j ≡ E.original w j
  pub stored-commit :
      (w : E.Wtx) (j : Bytes)
      → E.stored (E.commit w).1 j ≡ (if (E.commit w).0 then E.staged w j else E.original w j)
  pub stored-rollback : (w : E.Wtx) (j : Bytes) → E.stored (E.rollback w) j ≡ E.original w j
  pub stored-format :
      (d : E.Db) (j : Bytes) → (E.format d).0 ≡ true → E.stored (E.format d).1 j ≡ none
  pub stored-mount :
      (d : E.Db) (j : Bytes) → (E.mount d).0 ≡ true → E.stored (E.mount d).1 j ≡ E.stored d j

-- The flash has no fault and is not full: only the documented misuses fail.
pub record IsReliable (E : Ekv) : Type 0 where
  pub read_ok :
      (d : E.Db) (k v : Bytes) (n : ℕ)
      → E.stored d k ≡ some v
      → length v ≤ n
      → E.read d k n ≡ some v
  pub last_key-begin : (d : E.Db) → E.last_key (E.begin d) ≡ none
  pub last_key-write :
      (w : E.Wtx) (k v : Bytes) → (E.write w k v).0 ≡ true → E.last_key (E.write w k v).1 ≡ some k
  pub write_ok :
      (w : E.Wtx) (k v : Bytes)
      → IsAfter (E.last_key w) k
      → length k ≤ 64
      → length v ≤ 256
      → (E.write w k v).0 ≡ true
  pub commit_ok : (w : E.Wtx) → (E.commit w).0 ≡ true
  pub format_ok : (d : E.Db) → (E.format d).0 ≡ true

-- embedded-storage: a NOR flash, by offsets from its start. `erase from to` empties a range.
pub record NorFlash : Type 1 where
  pub Flash : Type 0
  pub erase : ℕ → ℕ → Flash → Bool × Flash
  pub read : ℕ → ℕ → Flash → Option Bytes
  pub write : ℕ → Bytes → Flash → Bool × Flash
  pub contents : Flash → ℕ → ℕ

-- An erase makes a range `0xFF`, a write of erased bytes stores them, neither touches another byte,
-- and a read returns what is there.
pub record IsNorFlash (N : NorFlash) : Type 0 where
  pub contents-erase :
      (from to : ℕ) (f : N.Flash) (i : ℕ)
      → (N.erase from to f).0 ≡ true
      → N.contents (N.erase from to f).1 i
        ≡ (if leb from i && ltb i to then 0xFF else N.contents f i)
  pub contents-write :
      (offset : ℕ) (bytes : Bytes) (f : N.Flash) (i : ℕ)
      → (N.write offset bytes f).0 ≡ true
      → (i < offset) ⊎ (offset + length bytes ≤ i)
      → N.contents (N.write offset bytes f).1 i ≡ N.contents f i
  pub contents-write_erased :
      (offset : ℕ) (bytes : Bytes) (f : N.Flash) (i : ℕ)
      → (N.write offset bytes f).0 ≡ true
      → i < length bytes
      → N.contents f (offset + i) ≡ 0xFF
      → N.contents (N.write offset bytes f).1 (offset + i) ≡ get_or bytes i 0
  pub length-read :
      (offset n : ℕ) (f : N.Flash) (v : Bytes) → N.read offset n f ≡ some v → length v ≡ n
  pub contents-read :
      (offset n : ℕ) (f : N.Flash) (v : Bytes) (i : ℕ)
      → N.read offset n f ≡ some v
      → i < n
      → get_or v i 0 ≡ N.contents f (offset + i)

-- embassy-sync: a `Signal` holds one value at most. `try_take` is what `wait` returns with, once
-- there is a value.
pub record Signal (A : Type 0) : Type 1 where
  pub Slot : Type 0
  pub new : Slot
  pub signal : A → Slot → Slot
  pub try_take : Slot → Option A × Slot

-- The value signalled last replaces one that was not taken, and taking it empties the signal.
pub record IsLatest {A : Type 0} (G : Signal A) : Type 0 where
  pub take-new : G.try_take G.new ≡ (none, G.new)
  pub take-signal : (a : A) (s : G.Slot) → G.try_take (G.signal a s) ≡ (some a, G.new)
  pub take_empties : (s : G.Slot) → (G.try_take (G.try_take s).1).0 ≡ none
