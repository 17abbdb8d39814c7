-- ===== src/Metrics/Window.antt =====
-- A timing window against the list of what was observed in it.
use highp_mmorpg.Prelude.{ℕ, ◌+◌, ◌%◌, ◌^◌, ◌≡◌, refl, List, [], ◌∷◌, arith, length, max}
use highp_mmorpg.Metrics.{
  TimingWindow, Duration, nanoseconds, below_zero, observe, empty_window, observe_max,
  observe_window, drain_window,
}

-- The durations that count.
abbrev pub counted : List Duration → List ℕ
counted [] = []
counted (below_zero ∷ ds) = counted ds
counted (nanoseconds n ∷ ds) = n ∷ counted ds

abbrev pub sum : List ℕ → ℕ
sum [] = 0
sum (n ∷ ns) = n + sum ns

abbrev pub maximum : List ℕ → ℕ
maximum [] = 0
maximum (n ∷ ns) = max n (maximum ns)

-- The observations in turn.
unfoldable pub observe_all : List Duration → TimingWindow → TimingWindow
observe_all [] w = w
observe_all (d ∷ ds) w = observe_all ds (observe d w)

observe_all_lem :
    (ds : List Duration) (w : TimingWindow)
    → w.count ≡ w.count % 2 ^ 64
    → w.total_nanoseconds ≡ w.total_nanoseconds % 2 ^ 64
    → let w' = observe_all ds w in
      (w'.count ≡ (w.count + length (counted ds)) % 2 ^ 64)
      × (w'.total_nanoseconds ≡ (w.total_nanoseconds + sum (counted ds)) % 2 ^ 64)
      × (w'.max_nanoseconds ≡ max w.max_nanoseconds (maximum (counted ds)))
unfolding observe_all observe observe_window observe_max
observe_all_lem [] w h k = (omega arith, omega arith, omega arith)
observe_all_lem (below_zero ∷ ds) w h k = observe_all_lem ds w h k
observe_all_lem (nanoseconds n ∷ ds) w h k =
    let (c, t, m) = observe_all_lem ds (observe_window n w) (omega arith) (omega arith) in
    (omega (arith, c), omega (arith, t), ground (arith, m))

-- What a drain hands out tells of the durations that were observed since the drain before it, those
-- below zero passed over: how many, and their sum, both modulo 2 ^ 64, and the longest. The next
-- window starts empty.
drain_window-observe_all :
    (ds : List Duration) (w : TimingWindow)
    → let (drained, next) = drain_window (observe_all ds (drain_window w).1) in
      (drained.count ≡ length (counted ds) % 2 ^ 64)
      × (drained.total_nanoseconds ≡ sum (counted ds) % 2 ^ 64)
      × (drained.max_nanoseconds ≡ maximum (counted ds))
      × (next ≡ empty_window)
unfolding drain_window
drain_window-observe_all ds w =
    let (c, t, m) = observe_all_lem ds empty_window (omega arith) (omega arith) in
    (omega (arith, c), omega (arith, t), omega (arith, m), refl)
