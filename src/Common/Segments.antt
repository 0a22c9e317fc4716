-- ===== src/Common/Segments.antt =====
-- A list that is put together from segments, and what a test finds in one of them.
use Prim.Native.Nat.{ℕ, zero, suc}
use mathlib.Core.Path.{◌≡◌}
use mathlib.Core.Bool.{Bool, true}
use mathlib.Core.List.{List, [], ◌∷◌, ◌++◌}
use bitcoin_argus.Common.Lists.{any, any-append_left, any-append_right}

module _ {ℓ} {A : Type ℓ} where
  abbrev pub flatten : List (List A) → List A
  flatten [] = []
  flatten (xs ∷ []) = xs
  flatten (xs ∷ ys ∷ segments) = xs ++ flatten (ys ∷ segments)

  abbrev pub segment : ℕ → List (List A) → List A
  segment i [] = []
  segment zero (xs ∷ segments) = xs
  segment (suc i) (xs ∷ segments) = segment i segments

  pub any-flatten :
      (p : A → Bool) (i : ℕ) (segments : List (List A))
      → any p (segment i segments) ≡ true
      → any p (flatten segments) ≡ true
  any-flatten p i [] h = h
  any-flatten p zero (xs ∷ []) h = h
  any-flatten p (suc i) (xs ∷ []) h = cc
  any-flatten p zero (xs ∷ ys ∷ segments) h = any-append_left p xs (flatten (ys ∷ segments)) h
  any-flatten p (suc i) (xs ∷ ys ∷ segments) h =
      any-append_right p xs (flatten (ys ∷ segments)) (any-flatten p i (ys ∷ segments) h)
