-- ===== src/Storage/Examples.antt =====
-- Runs of the storage functions, and the theorems about them at concrete inputs.
use cro_pduster.Prelude.{
  ℕ, zero, suc, ◌+◌, ◌-◌, ◌<◌, ◌∙◌, ap, of_some, length, get_or, leb, ltb, ◌&&◌, ◌≤◌, ◌≡◌, ◌⊎◌,
  refl, true, some, none, [], ◌∷◌, Bytes, codes, arith, if◌then◌else◌,
}
use cro_pduster.Platform.{NorFlash, IsNorFlash}
use cro_pduster.Platform.Memory.{
  heapless, heapless-IsBounded, sha2, sha2-IsDigest, ekv, ekv-IsAtomic, ekv-IsReliable,
}
use cro_pduster.Outcome.{ok}
use cro_pduster.Transaction.Laws.{overlay}
use cro_pduster.Storage.Pages.{page_offset, erase, read, write}
use cro_pduster.Storage.Pages.Layout.{page_base, page_write-read}
use cro_pduster.Storage.Keys.{user_pw_key}
use cro_pduster.Storage.Database.{init_database}
use cro_pduster.Storage.Database.Defaults.{default_entries, init_database_stores}

-- A flash in memory: a write clears nothing, it stores.
abbrev slice : (ℕ → ℕ) → ℕ → ℕ → Bytes
slice f at zero = []
slice f at (suc n) = f at ∷ slice f (at + 1) n

abbrev nor : NorFlash
nor = record {
  Flash = ℕ → ℕ;
  erase = λ from to f. (true, λ i. if leb from i && ltb i to then 0xFF else f i);
  read = λ at count f. some (slice f at count);
  write = λ at bytes f.
      (true, λ i. if leb at i && ltb i (at + length bytes) then get_or bytes (i - at) 0 else f i);
  contents = λ f. f;
}

length-slice : (f : ℕ → ℕ) (at n : ℕ) → length (slice f at n) ≡ n
length-slice f at zero = refl
length-slice f at (suc n) = ap suc (length-slice f (at + 1) n)

get_or-slice : (f : ℕ → ℕ) (at n i : ℕ) → i < n → get_or (slice f at n) i 0 ≡ f (at + i)
get_or-slice f at zero i h = absurd (omega arith)
get_or-slice f at (suc n) zero h = ap f (omega arith)
get_or-slice f at (suc n) (suc i) h = get_or-slice f (at + 1) n i (omega arith) ∙ ap f (omega arith)

nor-IsNorFlash : IsNorFlash nor
nor-IsNorFlash = record {
  contents-erase = λ from to f i h. refl;
  contents-write = λ offset bytes f i h out. ground arith;
  contents-write_erased = λ offset bytes f i h b e. ground arith;
  length-read = λ offset n f v h. rw (← of_some h) (length-slice f offset n);
  contents-read = λ offset n f v i h b. rw (← of_some h) (get_or-slice f offset n i b);
}

abbrev sevens : ℕ → ℕ
sevens i = 7

abbrev two_bytes : Bytes
two_bytes = 5 ∷ 6 ∷ []

page_write-read_example :
    let w = write nor 1 8 two_bytes (erase nor 1 sevens).1 in
    (length two_bytes ≡ length two_bytes)
    × ((i : ℕ) → i < length two_bytes → get_or two_bytes i 0 ≡ get_or two_bytes i 0)
    × ((a : ℕ) → (a < page_base 1) ⊎ (page_base 1 + 4096 ≤ a) → w.1 a ≡ 7)
    × (page_base 1 + 4096 ≤ 0xE8000)
unfolding erase read write page_offset
page_write-read_example =
    page_write-read nor-IsNorFlash 1 8 two_bytes two_bytes sevens (omega arith) (omega arith) refl
      refl refl

key_of_bob : user_pw_key heapless (codes "bob") ≡ some (codes "u/bob/pw")
unfolding user_pw_key
key_of_bob = refl

abbrev used : ekv.Db
used = (codes "p/0/name", codes "Lamp") ∷ []

init_database_stores_example :
    (d' : ekv.Db) × (init_database heapless sha2 ekv {X = Unit} used ≡ (ok tt, d'))
    × ((j : Bytes)
        → ekv.stored d' j ≡ (
            if (ekv.mount used).0
            then ekv.stored used j
            else overlay (default_entries sha2) (λ _. none) j))
init_database_stores_example =
    init_database_stores heapless-IsBounded sha2-IsDigest ekv-IsAtomic ekv-IsReliable {X = Unit}
      used
