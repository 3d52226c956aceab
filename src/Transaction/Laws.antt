-- ===== src/Transaction/Laws.antt =====
-- A transaction is all or nothing, and with sorted keys and a reliable flash it succeeds.
use cro_pduster.Prelude.{
  ◌≤◌, ◌≡◌, ◌≢◌, eq_bytes_ne, refl, ap, ◌∙◌, true, false, Option, none, some, [], ◌∷◌, Bytes,
  length, eq_bytes, Bool-cases, inl, inr, if◌then◌else◌, arith,
}
use cro_pduster.Platform.{Ekv, IsAfter, IsAtomic, IsReliable}
use cro_pduster.Outcome.{Result, ok, is_ok}
use cro_pduster.Transaction.{Entries, write_each, transaction}

-- What is stored once the entries are written over `f`.
abbrev pub overlay : Entries → (Bytes → Option Bytes) → Bytes → Option Bytes
overlay [] f j = f j
overlay ((k, v) ∷ entries) f j = overlay entries (λ i. if eq_bytes k i then some v else f i) j

-- The keys ascend, from `last` on, and keys and values have a size that ekv takes.
abbrev pub IsWritable : Option Bytes → Entries → Type 0
IsWritable last [] = Unit
IsWritable last ((k, v) ∷ entries) =
    IsAfter last k × (length k ≤ 64) × (length v ≤ 256) × IsWritable (some k) entries

-- None of the entries is for `j`.
abbrev pub Avoids : Bytes → Entries → Type 0
Avoids j [] = Unit
Avoids j ((k, v) ∷ entries) = (k ≢ j) × Avoids j entries

pub overlay-Avoids :
    (entries : Entries) (f : Bytes → Option Bytes) (j : Bytes)
    → Avoids j entries
    → overlay entries f j ≡ f j
overlay-Avoids [] f j h = refl
overlay-Avoids ((k, v) ∷ entries) f j h = overlay-Avoids entries _ j h.1 ∙ rw (eq_bytes_ne k j h.0)

pub overlay-ext :
    (entries : Entries) (f g : Bytes → Option Bytes) (j : Bytes)
    → ((i : Bytes) → f i ≡ g i)
    → overlay entries f j ≡ overlay entries g j
overlay-ext [] f g j h = h j
overlay-ext ((k, v) ∷ entries) f g j h =
    overlay-ext entries _ _ j (λ i. ap (λ o. if eq_bytes k i then some v else o) (h i))

module _ {E : Ekv} (L : IsAtomic E) where
  original-write_each :
      (entries : Entries) (w : E.Wtx) (j : Bytes)
      → E.original (write_each E entries w).1 j ≡ E.original w j
  unfolding write_each
  original-write_each [] w j = refl
  original-write_each ((k, v) ∷ entries) w j =
      ground (arith, L.original-write w k v j, original-write_each entries (E.write w k v).1 j)

  staged-write_each :
      (entries : Entries) (w : E.Wtx) (j : Bytes)
      → (write_each E entries w).0 ≡ true
      → E.staged (write_each E entries w).1 j ≡ overlay entries (E.staged w) j
  unfolding write_each
  staged-write_each [] w j h = refl
  staged-write_each ((k, v) ∷ entries) w j h = elim (Bool-cases (E.write w k v).0) [
    | inl e ↦
        let h' : (write_each E entries (E.write w k v).1).0 ≡ true = ground arith in
        rw e (
          staged-write_each entries (E.write w k v).1 j h'
          ∙ overlay-ext entries _ _ j (λ i. L.staged-write w k v i ∙ rw e))
    | inr e ↦ ground arith
  ]

  -- All entries are stored if the transaction succeeds, and none if it does not.
  pub stored-transaction :
      {X : Type 0} (on_write on_commit : Result X (Unit {0})) (entries : Entries) (d : E.Db)
      (j : Bytes)
      → is_ok on_write ≡ false
      → is_ok on_commit ≡ false
      → E.stored (transaction E on_write on_commit entries d).1 j ≡ (
          if is_ok (transaction E on_write on_commit entries d).0
          then overlay entries (E.stored d) j
          else E.stored d j)
  unfolding transaction
  stored-transaction on_write on_commit entries d j hw hc = ground (
    arith,
    L.stored-commit (write_each E entries (E.begin d)).1 j,
    L.stored-rollback (write_each E entries (E.begin d)).1 j,
    original-write_each entries (E.begin d) j,
    L.original-begin d j,
    staged-write_each entries (E.begin d) j,
    overlay-ext entries (E.staged (E.begin d)) (E.stored d) j (λ i. L.staged-begin d i),
  )

  -- A transaction that does not write a key leaves it alone, however it ends.
  pub transaction_untouched :
      {X : Type 0} (on_write on_commit : Result X (Unit {0})) (entries : Entries) (d : E.Db)
      (j : Bytes)
      → is_ok on_write ≡ false
      → is_ok on_commit ≡ false
      → overlay entries (E.stored d) j ≡ E.stored d j
      → E.stored (transaction E on_write on_commit entries d).1 j ≡ E.stored d j
  transaction_untouched on_write on_commit entries d j hw hc h =
      ground (arith, stored-transaction on_write on_commit entries d j hw hc)

module _ {E : Ekv} (R : IsReliable E) where
  pub write_each_ok :
      (entries : Entries) (w : E.Wtx)
      → IsWritable (E.last_key w) entries
      → (write_each E entries w).0 ≡ true
  unfolding write_each
  write_each_ok [] w h = refl
  write_each_ok ((k, v) ∷ entries) w h = ground (
    arith,
    R.write_ok w k v h.0 h.1 h.2,
    write_each_ok entries (E.write w k v).1
        (rw (R.last_key-write w k v (R.write_ok w k v h.0 h.1 h.2)) h.3),
  )

  pub transaction_ok :
      {X : Type 0} (on_write on_commit : Result X (Unit {0})) (entries : Entries) (d : E.Db)
      → IsWritable none entries
      → (transaction E on_write on_commit entries d).0 ≡ ok tt
  unfolding transaction
  transaction_ok on_write on_commit entries d h = ground (
    arith,
    write_each_ok entries (E.begin d) (rw (R.last_key-begin d) h),
    R.commit_ok (write_each E entries (E.begin d)).1,
  )

-- The two together: the state after a transaction that must succeed, with all that it stores.
pub transaction_stores :
    {E : Ekv}
    → IsAtomic E
    → IsReliable E
    → {X : Type 0} (on_write on_commit : Result X (Unit {0})) (entries : Entries) (d : E.Db)
    → is_ok on_write ≡ false
    → is_ok on_commit ≡ false
    → IsWritable none entries
    → (d' : E.Db) × (transaction E on_write on_commit entries d ≡ (ok tt, d'))
      × ((j : Bytes) → E.stored d' j ≡ overlay entries (E.stored d) j)
transaction_stores {E} L R on_write on_commit entries d hw hc h =
    let done = transaction_ok R on_write on_commit entries d h in
    (
      (transaction E on_write on_commit entries d).1,
      λ i. (done i, (transaction E on_write on_commit entries d).1),
      λ j. stored-transaction L on_write on_commit entries d j hw hc ∙ rw done,
    )
