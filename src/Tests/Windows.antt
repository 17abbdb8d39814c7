-- ===== src/Tests/Windows.antt =====
-- A timing window, with a drain in the middle of an observation.
use highp_mmorpg.Prelude.{◌%◌, ◌^◌, ◌≤◌, ◌≡◌, List, [], ◌∷◌, All, arith, tally}
use highp_mmorpg.Metrics.Atomics.{Step, observes, drains, advances, run, fresh}
use highp_mmorpg.Metrics.Conserved.{observed, count_in, total_in, IsWithin, run-Conserves}

-- The count of 5 is drained, and then its total is added.
abbrev torn : List Step
torn =
    observes 5
    ∷ advances 0
    ∷ drains
    ∷ advances 0
    ∷ advances 0
    ∷ advances 1
    ∷ advances 0
    ∷ observes 3
    ∷ []

torn_bounded : All (λ n. n ≤ 5) (observed torn)
unfolding observed
torn_bounded = (omega arith, (omega arith, tt))

run-Conserves_example :
    (count_in (run torn fresh) % 2 ^ 64 ≡ tally (λ n. 1) (observed torn) % 2 ^ 64)
    × (total_in (run torn fresh) % 2 ^ 64 ≡ tally (λ n. n) (observed torn) % 2 ^ 64)
    × IsWithin 5 (run torn fresh)
run-Conserves_example = run-Conserves 5 torn torn_bounded
