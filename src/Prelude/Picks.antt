-- ===== src/Prelude/Picks.antt =====
-- An element taken out of a list by its place, and sums over lists.
use Prim.Native.Nat.{ℕ, zero, suc, ◌+◌}
use mathlib.Core.Path.{◌≡◌, ap, ◌∙◌}
use mathlib.Core.Logic.{inl, inr}
use mathlib.Core.List.{List, [], ◌∷◌, ◌++◌}
use mathlib.Core.Option.{Option, none, some}
use native.Mathlib.Omega.{arith}
use highp_mmorpg.Prelude.Tests.{Option-cases}

-- The element at a place, and the others.
unfoldable pub pick : {A : Type 0} → ℕ → List A → Option (A × List A)
pick i [] = none
pick zero (x ∷ xs) = some (x, xs)
pick (suc i) (x ∷ xs) = elim (pick i xs) [ none ↦ none | some r ↦ some (r.0, x ∷ r.1) ]

-- The sum of the weights.
unfoldable pub tally : {A : Type 0} → (A → ℕ) → List A → ℕ
tally weight [] = 0
tally weight (x ∷ xs) = weight x + tally weight xs

pub tally-append :
    {A : Type 0} (weight : A → ℕ) (xs ys : List A)
    → tally weight (xs ++ ys) ≡ tally weight xs + tally weight ys
unfolding tally
tally-append weight [] ys = omega arith
tally-append weight (x ∷ xs) ys = ap (λ n. weight x + n) (tally-append weight xs ys) ∙ omega arith

-- One more at the end.
pub tally-one :
    {A : Type 0} (weight : A → ℕ) (xs : List A) (y : A)
    → tally weight (xs ++ y ∷ []) ≡ tally weight xs + weight y
unfolding tally
tally-one weight xs y = tally-append weight xs (y ∷ []) ∙ omega arith

pub tally-pick :
    {A : Type 0} (weight : A → ℕ) (i : ℕ) (ws : List A) (w : A) (rest : List A)
    → pick i ws ≡ some (w, rest)
    → tally weight ws ≡ weight w + tally weight rest
unfolding tally pick
tally-pick weight i [] w rest e = absurd (ground arith)
tally-pick weight zero (v ∷ ws) w rest e = ground (arith, e)
tally-pick weight (suc i) (v ∷ ws) w rest e = elim (Option-cases (pick i ws)) [
  | inl f ↦ absurd (ground (arith, f, e))
  | inr ((x, xs), f) ↦
      let ih = tally-pick weight i ws x xs f in
      let same : w ≡ x = ground (arith, e, f) in
      let others : rest ≡ v ∷ xs = ground (arith, e, f) in
      omega (arith, ih, ap weight same, ap (tally weight) others)
]
