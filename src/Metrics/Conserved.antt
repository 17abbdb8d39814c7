-- ===== src/Metrics/Conserved.antt =====
-- What the drained windows tell, when observations and drains interleave: Metrics/Atomics.antt.
use highp_mmorpg.Prelude.{
  ℕ, zero, suc, ◌+◌, ◌%◌, ◌^◌, ◌≤◌, ◌≡◌, sym, ap, subst, ◌∙◌, ◌⊎◌, inl, inr, List, [], ◌∷◌, some,
  arith, All, All-append, Option-cases, pick, tally, tally-one, tally-pick,
}
use highp_mmorpg.Metrics.{TimingWindow}
use highp_mmorpg.Metrics.Atomics.{
  Access, counts, totals, loads, stores, takes_count, takes_total, takes_max, Shared, access,
  access_on, Step, observes, drains, advances, step, run, fresh,
}

-- What a call under way still adds to the count, or has taken from it and not yet handed out.
abbrev pub count_of : Access → ℕ
count_of (counts n) = 1
count_of (totals n) = 0
count_of (loads n) = 0
count_of (stores n loaded) = 0
count_of takes_count = 0
count_of (takes_total count) = count
count_of (takes_max count total) = count

abbrev pub total_of : Access → ℕ
total_of (counts n) = n
total_of (totals n) = n
total_of (loads n) = 0
total_of (stores n loaded) = 0
total_of takes_count = 0
total_of (takes_total count) = 0
total_of (takes_max count total) = total

abbrev pub value_of : Access → ℕ
value_of (counts n) = n
value_of (totals n) = n
value_of (loads n) = n
value_of (stores n loaded) = n
value_of takes_count = 0
value_of (takes_total count) = 0
value_of (takes_max count total) = 0

-- The observations that were begun.
unfoldable pub observed : List Step → List ℕ
observed [] = []
observed (observes n ∷ xs) = n ∷ observed xs
observed (drains ∷ xs) = observed xs
observed (advances i ∷ xs) = observed xs

-- The counts handed out, under way and in the window, and so the totals.
unfoldable pub count_in : Shared → ℕ
count_in s =
    tally (λ (w : TimingWindow). w.count) s.drained + (tally count_of s.calls + s.window.count)

unfoldable pub total_in : Shared → ℕ
total_in s =
    tally (λ (w : TimingWindow). w.total_nanoseconds) s.drained
    + (tally total_of s.calls + s.window.total_nanoseconds)

access-count :
    (a : Access) (s : Shared) → count_in (access a s) % 2 ^ 64 ≡ (count_of a + count_in s) % 2 ^ 64
unfolding access count_in tally
access-count (counts n) s = omega arith
access-count (totals n) s = omega arith
access-count (loads n) s = omega arith
access-count (stores n loaded) s = omega arith
access-count takes_count s = omega arith
access-count (takes_total count) s = omega arith
access-count (takes_max count total) s =
    let w : TimingWindow = record {
      count = count;
      total_nanoseconds = total;
      max_nanoseconds = s.window.max_nanoseconds;
    } in
    omega (arith, tally-one (λ (w : TimingWindow). w.count) s.drained w)

access-total :
    (a : Access) (s : Shared) → total_in (access a s) % 2 ^ 64 ≡ (total_of a + total_in s) % 2 ^ 64
unfolding access total_in tally
access-total (counts n) s = omega arith
access-total (totals n) s = omega arith
access-total (loads n) s = omega arith
access-total (stores n loaded) s = omega arith
access-total takes_count s = omega arith
access-total (takes_total count) s = omega arith
access-total (takes_max count total) s =
    let w : TimingWindow = record {
      count = count;
      total_nanoseconds = total;
      max_nanoseconds = s.window.max_nanoseconds;
    } in
    omega (arith, tally-one (λ (w : TimingWindow). w.total_nanoseconds) s.drained w)

Advance-cases :
    (i : ℕ) (s : Shared)
    → (step (advances i) s ≡ s)
      ⊎ ((a : Access) × (rest : List Access) × (pick i s.calls ≡ some (a, rest))
          × (step (advances i) s ≡ access a (record s { calls = rest })))
unfolding step
Advance-cases i s = elim (Option-cases (pick i s.calls)) [
  | inl e ↦ inl (ap (λ r. access_on r s) e)
  | inr ((a, rest), e) ↦ inr (a, rest, e, ap (λ r. access_on r s) e)
]

advance-count : (i : ℕ) (s : Shared) → count_in (step (advances i) s) % 2 ^ 64 ≡ count_in s % 2 ^ 64
unfolding count_in
advance-count i s = elim (Advance-cases i s) [
  | inl e ↦ ap (λ x. count_in x % 2 ^ 64) e
  | inr (a, rest, e, f) ↦
      ap (λ x. count_in x % 2 ^ 64) f
      ∙ (access-count a (record s { calls = rest })
          ∙ omega (arith, tally-pick count_of i s.calls a rest e))
]

advance-total : (i : ℕ) (s : Shared) → total_in (step (advances i) s) % 2 ^ 64 ≡ total_in s % 2 ^ 64
unfolding total_in
advance-total i s = elim (Advance-cases i s) [
  | inl e ↦ ap (λ x. total_in x % 2 ^ 64) e
  | inr (a, rest, e, f) ↦
      ap (λ x. total_in x % 2 ^ 64) f
      ∙ (access-total a (record s { calls = rest })
          ∙ omega (arith, tally-pick total_of i s.calls a rest e))
]

begun-count : (n : ℕ) (s : Shared) → count_in (step (observes n) s) ≡ count_in s + 1
unfolding count_in step tally
begun-count n s = omega arith

begun-total : (n : ℕ) (s : Shared) → total_in (step (observes n) s) ≡ total_in s + n
unfolding total_in step tally
begun-total n s = omega arith

drain_begun :
    (s : Shared) → (count_in (step drains s) ≡ count_in s) × (total_in (step drains s) ≡ total_in s)
unfolding count_in total_in step tally
drain_begun s = (omega arith, omega arith)

run-count :
    (xs : List Step) (s : Shared)
    → count_in (run xs s) % 2 ^ 64 ≡ (count_in s + tally (λ n. 1) (observed xs)) % 2 ^ 64
unfolding run observed tally
run-count [] s = omega arith
run-count (observes n ∷ xs) s = omega (arith, run-count xs (step (observes n) s), begun-count n s)
run-count (drains ∷ xs) s = omega (arith, run-count xs (step drains s), (drain_begun s).0)
run-count (advances i ∷ xs) s = omega (arith, run-count xs (step (advances i) s), advance-count i s)

run-total :
    (xs : List Step) (s : Shared)
    → total_in (run xs s) % 2 ^ 64 ≡ (total_in s + tally (λ n. n) (observed xs)) % 2 ^ 64
unfolding run observed tally
run-total [] s = omega arith
run-total (observes n ∷ xs) s = omega (arith, run-total xs (step (observes n) s), begun-total n s)
run-total (drains ∷ xs) s = omega (arith, run-total xs (step drains s), (drain_begun s).1)
run-total (advances i ∷ xs) s = omega (arith, run-total xs (step (advances i) s), advance-total i s)

-- No longest duration that is or will be in the window, or was handed out, is above the bound.
pub record IsWithin (bound : ℕ) (s : Shared) : Type 0 where
  pub now : s.window.max_nanoseconds ≤ bound
  pub coming : All (λ a. value_of a ≤ bound) s.calls
  pub handed_out : All (λ (w : TimingWindow). w.max_nanoseconds ≤ bound) s.drained

access-IsWithin :
    (bound : ℕ) (a : Access) (s : Shared)
    → value_of a ≤ bound
    → IsWithin bound s
    → IsWithin bound (access a s)
unfolding access
access-IsWithin bound (counts n) s v h = record {
  now = h.now;
  coming = (v, h.coming);
  handed_out = h.handed_out;
}
access-IsWithin bound (totals n) s v h = record {
  now = h.now;
  coming = (v, h.coming);
  handed_out = h.handed_out;
}
access-IsWithin bound (loads n) s v h = record {
  now = h.now;
  coming = (v, h.coming);
  handed_out = h.handed_out;
}
access-IsWithin bound (stores n loaded) s v h = record {
  now = ground (arith, v, h.now);
  coming = h.coming;
  handed_out = h.handed_out;
}
access-IsWithin bound takes_count s v h = record {
  now = h.now;
  coming = (v, h.coming);
  handed_out = h.handed_out;
}
access-IsWithin bound (takes_total count) s v h = record {
  now = h.now;
  coming = (v, h.coming);
  handed_out = h.handed_out;
}
access-IsWithin bound (takes_max count total) s v h = record {
  now = omega arith;
  coming = h.coming;
  handed_out =
      All-append (λ (w : TimingWindow). w.max_nanoseconds ≤ bound) s.drained _ h.handed_out
        (h.now, tt);
}

All-pick :
    {A : Type 0} (P : A → Type 0) (i : ℕ) (xs : List A) (x : A) (rest : List A)
    → pick i xs ≡ some (x, rest)
    → All P xs
    → P x × All P rest
unfolding pick
All-pick P i [] x rest e h = absurd (ground arith)
All-pick P zero (y ∷ xs) x rest e h = (
  subst P (let same : y ≡ x = ground arith in same) h.0,
  subst (All P) (let same : xs ≡ rest = ground arith in same) h.1,
)
All-pick P (suc i) (y ∷ xs) x rest e h = elim (Option-cases (pick i xs)) [
  | inl f ↦ absurd (ground (arith, f, e))
  | inr ((z, zs), f) ↦
      let (this, others) = All-pick P i xs z zs f h.1 in
      (
        subst P (let same : z ≡ x = ground (arith, e, f) in same) this,
        subst (All P) (let same : y ∷ zs ≡ rest = ground (arith, e, f) in same) (h.0, others),
      )
]

step-IsWithin :
    (bound : ℕ) (i : ℕ) (s : Shared) → IsWithin bound s → IsWithin bound (step (advances i) s)
step-IsWithin bound i s h = elim (Advance-cases i s) [
  | inl e ↦ subst (IsWithin bound) (sym e) h
  | inr (a, rest, e, f) ↦
      let (this, others) = All-pick (λ a. value_of a ≤ bound) i s.calls a rest e h.coming in
      subst (IsWithin bound) (sym f) (
        access-IsWithin bound a (record s { calls = rest }) this
          (record { now = h.now; coming = others; handed_out = h.handed_out }))
]

begun-IsWithin :
    (bound n : ℕ) (s : Shared) → n ≤ bound → IsWithin bound s → IsWithin bound (step (observes n) s)
unfolding step
begun-IsWithin bound n s k h = record {
  now = h.now;
  coming = (k, h.coming);
  handed_out = h.handed_out;
}

drain-IsWithin : (bound : ℕ) (s : Shared) → IsWithin bound s → IsWithin bound (step drains s)
unfolding step
drain-IsWithin bound s h = record {
  now = h.now;
  coming = (omega arith, h.coming);
  handed_out = h.handed_out;
}

run-IsWithin :
    (bound : ℕ) (xs : List Step) (s : Shared)
    → All (λ n. n ≤ bound) (observed xs)
    → IsWithin bound s
    → IsWithin bound (run xs s)
unfolding run observed
run-IsWithin bound [] s a h = h
run-IsWithin bound (observes n ∷ xs) s (k, all) h =
    run-IsWithin bound xs (step (observes n) s) all (begun-IsWithin bound n s k h)
run-IsWithin bound (drains ∷ xs) s a h =
    run-IsWithin bound xs (step drains s) a (drain-IsWithin bound s h)
run-IsWithin bound (advances i ∷ xs) s a h =
    run-IsWithin bound xs (step (advances i) s) a (step-IsWithin bound i s h)

-- From an empty window, with every interleaving of the atomic accesses of any observations and drains:
-- modulo 2^64, the counts that the drains handed out, those that calls under way still bring or hold and
-- the one in the window add up to the number of observations that were begun, and the totals in the same
-- way to the sum of what they observe. If no observed duration is above a bound, neither is the longest one
-- of the window, nor of any drain.
pub run-Conserves :
    (bound : ℕ) (xs : List Step)
    → All (λ n. n ≤ bound) (observed xs)
    → let s = run xs fresh in
      (count_in s % 2 ^ 64 ≡ tally (λ n. 1) (observed xs) % 2 ^ 64)
      × (total_in s % 2 ^ 64 ≡ tally (λ n. n) (observed xs) % 2 ^ 64)
      × IsWithin bound s
unfolding count_in total_in tally
run-Conserves bound xs a = (
  run-count xs fresh ∙ omega arith,
  run-total xs fresh ∙ omega arith,
  run-IsWithin bound xs fresh a (record { now = omega arith; coming = tt; handed_out = tt }),
)
