-- ===== src/Common/Traverse.antt =====
-- Python's loops that build a list and stop at the first item that fails.
use mathlib.Core.Path.{◌≡◌, subst}
use mathlib.Core.Logic.{inl, inr}
use mathlib.Core.Option.{Option, none, some}
use mathlib.Core.List.{List, [], ◌∷◌}
use native.Mathlib.Omega.{arith}
use bitcoin_argus.Common.Tests.{Option-cases}
use bitcoin_argus.Common.Lists.{All}

unfoldable pub traverse {ℓ κ} :
    {A : Type ℓ} {B : Type κ} → (A → Option B) → List A → Option (List B)
traverse f [] = some []
traverse f (x ∷ xs) =
    let rest = traverse f xs in
    elim (f x) [ none ↦ none | some y ↦ elim rest [ none ↦ none | some ys ↦ some (y ∷ ys) ] ]

-- What holds of all items makes what holds of all results.
pub All-traverse :
    {A : Type 0} {B : Type 0} (P : A → Type 0) (Q : B → Type 0) (f : A → Option B) (xs : List A)
    (ys : List B)
    → ((x : A) (y : B) → f x ≡ some y → P x → Q y)
    → traverse f xs ≡ some ys
    → All P xs
    → All Q ys
unfolding traverse
All-traverse P Q f [] ys g e h = let same : [] ≡ ys = ground arith in subst (All Q) same tt
All-traverse P Q f (x ∷ xs) ys g e h = elim (Option-cases (f x)) [
  | inl n ↦ absurd (ground arith)
  | inr (y, n) ↦ elim (Option-cases (traverse f xs)) [
    | inl m ↦ absurd (ground arith)
    | inr (more, m) ↦
        let same : y ∷ more ≡ ys = ground arith in
        subst (All Q) same (g x y n h.0, All-traverse P Q f xs more g m h.1)
  ]
]
