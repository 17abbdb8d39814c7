-- ===== src/Metrics/Atomics.antt =====
-- The calls of ObserveWindow and DrainWindow on one window, each atomic access a step of its own, in any
-- interleaving of any number of threads.
use highp_mmorpg.Prelude.{ℕ, ◌≡◌, refl, List, [], ◌∷◌, ◌++◌, Option, none, some, pick}
use highp_mmorpg.Metrics.{
  TimingWindow, store_max, observe_max, add_count, add_total, observe_window, empty_window,
  exchange_count, exchange_total, exchange_max, drain_window,
}

-- A call, by its next access: `stores` has loaded the longest, and the takes carry what they have read.
pub data Access : Type 0 where
  counts totals loads : ℕ → Access
  stores : (value loaded : ℕ) → Access
  takes_count : Access
  takes_total : ℕ → Access
  takes_max : (count total : ℕ) → Access

-- The window, the calls that are under way, and what DrainWindow has answered so far.
pub record Shared : Type 0 where
  pub window : TimingWindow
  pub calls : List Access
  pub drained : List TimingWindow

-- The next access of a call, which is not among the `calls` here.
unfoldable pub access : Access → Shared → Shared
access (counts n) s = record s { window = add_count s.window; calls = totals n ∷ s.calls }
access (totals n) s = record s { window = add_total n s.window; calls = loads n ∷ s.calls }
access (loads n) s = record s { calls = stores n s.window.max_nanoseconds ∷ s.calls }
access (stores n loaded) s = record s {
  window = record s.window { max_nanoseconds = store_max loaded s.window.max_nanoseconds n };
}
access takes_count s =
    let (count, w) = exchange_count s.window in
    record s { window = w; calls = takes_total count ∷ s.calls }
access (takes_total count) s =
    let (total, w) = exchange_total s.window in
    record s { window = w; calls = takes_max count total ∷ s.calls }
access (takes_max count total) s =
    let (longest, w) = exchange_max s.window in
    record s {
      window = w;
      drained =
          s.drained
          ++ (record { count = count; total_nanoseconds = total; max_nanoseconds = longest }) ∷ [];
    }

abbrev pub access_on : Option (Access × List Access) → Shared → Shared
access_on none s = s
access_on (some (a, rest)) s = access a (record s { calls = rest })

-- A thread begins a call, or the call at a place makes its next access.
pub data Step : Type 0 where
  observes : ℕ → Step
  drains : Step
  advances : ℕ → Step

unfoldable pub step : Step → Shared → Shared
unfolding access
step (observes n) s = record s { calls = counts n ∷ s.calls }
step drains s = record s { calls = takes_count ∷ s.calls }
step (advances i) s = access_on (pick i s.calls) s

unfoldable pub run : List Step → Shared → Shared
run [] s = s
run (x ∷ xs) s = run xs (step x s)

abbrev pub fresh : Shared
fresh = record { window = empty_window; calls = []; drained = [] }

-- Alone, the accesses of a call are ObserveWindow.
observes_alone :
    (n : ℕ) (w : TimingWindow) (drained : List TimingWindow)
    → run
        (observes n ∷ advances 0 ∷ advances 0 ∷ advances 0 ∷ advances 0 ∷ [])
        (record { window = w; calls = []; drained = drained })
      ≡ record { window = observe_window n w; calls = []; drained = drained }
unfolding run step access pick observe_window observe_max
observes_alone n w drained = refl

-- Alone, the accesses of a call are DrainWindow.
drains_alone :
    (w : TimingWindow) (drained : List TimingWindow)
    → run
        (drains ∷ advances 0 ∷ advances 0 ∷ advances 0 ∷ [])
        (record { window = w; calls = []; drained = drained })
      ≡ record {
        window = (drain_window w).1;
        calls = [];
        drained = drained ++ (drain_window w).0 ∷ [];
      }
unfolding run step access pick drain_window
drains_alone w drained = refl
