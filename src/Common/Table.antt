-- ===== src/Common/Table.antt =====
-- A database table as the list of its rows, and the statements that the program sends to one.
-- A statement is about the rows that a test `p` selects, as a WHERE clause does.
use Prim.Native.Nat.{ℕ, suc, max, ◌≤◌}
use mathlib.Core.Path.{◌≡◌, refl}
use mathlib.Core.Logic.{inl, inr}
use mathlib.Core.Bool.{Bool, true, false, not}
use mathlib.Core.List.{List, [], ◌∷◌}
use mathlib.Core.Option
use mathlib.Core.Option.{Option, none, some}
use native.Mathlib.Omega.{arith}
use bitcoin_argus.Common.Tests.{if◌then◌else◌, Bool-cases}
use bitcoin_argus.Common.Lists.{filter, All}

module _ {ℓ} {R : Type ℓ} where
  -- `get_or_none`: the first row that the test selects.
  abbrev pub find? : (R → Bool) → List R → Option R
  find? p [] = none
  find? p (r ∷ rs) = if p r then some r else find? p rs

  -- The number of rows that a statement with this test changes.
  abbrev pub count : (R → Bool) → List R → ℕ
  count p [] = 0
  count p (r ∷ rs) = if p r then suc (count p rs) else count p rs

  -- UPDATE … WHERE
  abbrev pub update : (R → Bool) → (R → R) → List R → List R
  update p f [] = []
  update p f (r ∷ rs) = (if p r then f r else r) ∷ update p f rs

  -- INSERT … ON CONFLICT DO UPDATE, where the test selects the rows with the new row's key.
  abbrev pub upsert : (R → Bool) → (R → R) → R → List R → List R
  upsert p f new [] = new ∷ []
  upsert p f new (r ∷ rs) = if p r then f r ∷ rs else r ∷ upsert p f new rs

  -- DELETE … WHERE
  abbrev pub delete : (R → Bool) → List R → List R
  delete p = filter (λ r. not (p r))

module _ {ℓ} {R : Type ℓ} (p : R → Bool) where
  -- A test finds a row exactly when it counts one.
  pub find?-none_of_count : (rs : List R) → count p rs ≡ 0 → find? p rs ≡ none
  find?-none_of_count [] h = refl
  find?-none_of_count (r ∷ rs) h = ground (arith, find?-none_of_count rs)

  pub find?-ne_none : (rs : List R) → ¬ (count p rs ≡ 0) → ¬ (find? p rs ≡ none)
  find?-ne_none [] h = absurd (h refl)
  find?-ne_none (r ∷ rs) h = ground (arith, find?-ne_none rs)

module _ {ℓ} {R : Type ℓ} (p : R → Bool) (f : R → R) where
  -- A read of the written key.
  pub find?-upsert_self :
      (new : R) (rs : List R)
      → p new ≡ true
      → ((r : R) → p (f r) ≡ p r)
      → find? p (upsert p f new rs) ≡ some (elim (find? p rs) [ none ↦ new | some r ↦ f r ])
  find?-upsert_self new [] hn hf = ground arith
  find?-upsert_self new (r ∷ rs) hn hf = ground (arith, hf r, find?-upsert_self new rs hn hf)

  -- A read of another key.
  pub find?-upsert_ne :
      (q : R → Bool) (new : R) (rs : List R)
      → q new ≡ false
      → ((r : R) → p r ≡ true → q r ≡ false)
      → ((r : R) → p r ≡ true → q (f r) ≡ false)
      → find? q (upsert p f new rs) ≡ find? q rs
  find?-upsert_ne q new [] hn hd hf = ground arith
  find?-upsert_ne q new (r ∷ rs) hn hd hf =
      ground (arith, hd r, hf r, find?-upsert_ne q new rs hn hd hf)

  -- An update that selects no row changes nothing, and one that selects a row is seen.
  pub update_absent : (rs : List R) → count p rs ≡ 0 → update p f rs ≡ rs
  update_absent [] h = refl
  update_absent (r ∷ rs) h = ground (arith, update_absent rs)

  pub find?-update_self :
      (rs : List R)
      → ((r : R) → p (f r) ≡ p r)
      → find? p (update p f rs) ≡ Option.map f (find? p rs)
  find?-update_self [] hf = refl
  find?-update_self (r ∷ rs) hf = ground (arith, hf r, find?-update_self rs hf)

  pub find?-update_ne :
      (q : R → Bool) (rs : List R)
      → ((r : R) → p r ≡ true → q r ≡ false)
      → ((r : R) → p r ≡ true → q (f r) ≡ false)
      → find? q (update p f rs) ≡ find? q rs
  find?-update_ne q [] hd hf = refl
  find?-update_ne q (r ∷ rs) hd hf = ground (arith, hd r, hf r, find?-update_ne q rs hd hf)

  -- How many rows a key has after a write of it, or of another key.
  pub count-upsert_self :
      (new : R) (rs : List R)
      → p new ≡ true
      → ((r : R) → p (f r) ≡ p r)
      → count p (upsert p f new rs) ≡ max 1 (count p rs)
  count-upsert_self new [] hn hf = ground arith
  count-upsert_self new (r ∷ rs) hn hf = ground (arith, hf r, count-upsert_self new rs hn hf)

  pub count-upsert_ne :
      (q : R → Bool) (new : R) (rs : List R)
      → q new ≡ false
      → ((r : R) → p r ≡ true → q r ≡ false)
      → ((r : R) → p r ≡ true → q (f r) ≡ false)
      → count q (upsert p f new rs) ≡ count q rs
  count-upsert_ne q new [] hn hd hf = ground arith
  count-upsert_ne q new (r ∷ rs) hn hd hf =
      ground (arith, hd r, hf r, count-upsert_ne q new rs hn hd hf)

module _ {ℓ} {R : Type ℓ} (p q : R → Bool) where
  pub count-delete-le : (rs : List R) → count q (delete p rs) ≤ count q rs
  count-delete-le [] = omega arith
  count-delete-le (r ∷ rs) = ground (arith, count-delete-le rs)

  pub count-update :
      (f : R → R) (rs : List R) → ((r : R) → q (f r) ≡ q r) → count q (update p f rs) ≡ count q rs
  count-update f [] hf = refl
  count-update f (r ∷ rs) hf = ground (arith, hf r, count-update f rs hf)

  -- A delete that selects no row of a key is not seen by a read of the key.
  pub find?-delete_ne :
      (rs : List R) → ((r : R) → q r ≡ true → p r ≡ false) → find? q (delete p rs) ≡ find? q rs
  find?-delete_ne [] h = refl
  find?-delete_ne (r ∷ rs) h = ground (arith, h r, find?-delete_ne rs h)

-- What holds of every row.
module _ {ℓ κ} {R : Type ℓ} (P : R → Type κ) (p : R → Bool) where
  pub All-update :
      (f : R → R) (rs : List R) → ((r : R) → P r → P (f r)) → All P rs → All P (update p f rs)
  All-update f [] hf h = h
  All-update f (r ∷ rs) hf h = elim (Bool-cases (p r)) [
    | inl e ↦ rw e (hf r h.0, All-update f rs hf h.1)
    | inr e ↦ rw e (h.0, All-update f rs hf h.1)
  ]

  pub All-upsert :
      (f : R → R) (new : R) (rs : List R)
      → ((r : R) → P r → P (f r))
      → P new
      → All P rs
      → All P (upsert p f new rs)
  All-upsert f new [] hf hn h = (hn, h)
  All-upsert f new (r ∷ rs) hf hn h = elim (Bool-cases (p r)) [
    | inl e ↦ rw e (hf r h.0, h.1)
    | inr e ↦ rw e (h.0, All-upsert f new rs hf hn h.1)
  ]

  pub All-delete : (rs : List R) → All P rs → All P (delete p rs)
  All-delete [] h = h
  All-delete (r ∷ rs) h = elim (Bool-cases (p r)) [
    | inl e ↦ rw e (All-delete rs h.1)
    | inr e ↦ rw e (h.0, All-delete rs h.1)
  ]

  pub All-find? : (rs : List R) {r : R} → find? p rs ≡ some r → All P rs → P r
  All-find? [] e h = cc
  All-find? (x ∷ rs) {r} e h = elim (Bool-cases (p x)) [
    | inl t ↦ let q : x ≡ r = ground arith in rw (← q) h.0
    | inr t ↦ All-find? rs (ground arith) h.1
  ]

-- Deleting the rows that a test selects loses the row of a key only if the test selects it.
pub find?-delete :
    {R : Type 0} (p q : R → Bool) (rs : List R)
    → count q rs ≤ 1
    → find? q (delete p rs)
      ≡ elim (find? q rs) [ none ↦ none | some r ↦ if p r then none else some r ]
find?-delete p q [] h = refl
find?-delete p q (r ∷ rs) h = ground (arith, find?-delete p q rs, find?-none_of_count q rs)

pub find?-test {ℓ} :
    {R : Type ℓ} (p : R → Bool) (rs : List R) {r : R} → find? p rs ≡ some r → p r ≡ true
find?-test p [] h = cc
find?-test p (x ∷ rs) {r} h = elim (Bool-cases (p x)) [
  | inl t ↦ let q : x ≡ r = ground arith in rw (← q) t
  | inr t ↦ find?-test p rs (ground arith)
]
