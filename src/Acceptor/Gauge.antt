-- ===== src/Acceptor/Gauge.antt =====
-- The gauge of outstanding accepts: Acceptor.antt with
-- lib/src/metrics/server/ServerMetricsCallbacks.cpp and Metrics.antt.
use highp_mmorpg.Prelude.{
  ℕ, ◌+◌, ◌%◌, ◌^◌, ◌≡◌, refl, sym, ap, subst, ◌∙◌, if◌then◌else◌, inl, inr, Bool, true, false,
  Option, none, some, List, [], ◌∷◌, ◌++◌, arith, Bool-cases, Option-cases,
}
use highp_mmorpg.Scope.{DeferContext, find, remove, destroy}
use highp_mmorpg.Acceptor.{
  accept, Effect, created, closed, handed, given_back, cancelled, posted, post_failed, completed,
  completion_failed, Acceptor, Answers, given, close_socket, give_back, post_accept,
  fail_completion, hand_over, clean_up, finish,
}
use highp_mmorpg.Acceptor.Pending.{length-remove, find-remove-none}
use highp_mmorpg.Acceptor.Sockets.{
  tally, tally-append, post_accept_unmade, post_accept_refused, post_accept_held,
}
use highp_mmorpg.Acceptor.Completing.{complete_held}
use highp_mmorpg.Acceptor.Outstanding.{outstanding}
use highp_mmorpg.Acceptor.Serving.{Call, posts, completes, answers, run, run_all, idle, IsFair}
use highp_mmorpg.Metrics.{Report, ServerMetrics, on_report}

-- BindAcceptorMetricsCallbacks: the callback of the metrics for each of the acceptor's reports.
unfoldable pub on_effect : Effect → ServerMetrics → ServerMetrics
on_effect posted m = on_report Report.accept_posted m
on_effect post_failed m = on_report Report.accept_post_failed m
on_effect completed m = on_report Report.accept_completed m
on_effect completion_failed m = on_report Report.accept_completion_failed m
on_effect (created s) m = m
on_effect (closed s) m = m
on_effect (handed s) m = m
on_effect (given_back item) m = m
on_effect (cancelled item) m = m

-- The trace has the latest effect first.
unfoldable pub on_effects : List Effect → ServerMetrics → ServerMetrics
on_effects [] m = m
on_effects (e ∷ es) m = on_effect e (on_effects es m)

ups : Effect → ℕ
ups posted = 1
ups _ = 0

downs : Effect → ℕ
downs completed = 1
downs completion_failed = 1
downs _ = 0

on_effect_lem :
    (e : Effect) (m : ServerMetrics)
    → ((on_effect e m).pending_accept_count + downs e) % 2 ^ 64
      ≡ (m.pending_accept_count + ups e) % 2 ^ 64
unfolding on_effect on_report ups downs
on_effect_lem posted m = omega arith
on_effect_lem post_failed m = refl
on_effect_lem completed m = omega arith
on_effect_lem completion_failed m = omega arith
on_effect_lem (created s) m = refl
on_effect_lem (closed s) m = refl
on_effect_lem (handed s) m = refl
on_effect_lem (given_back item) m = refl
on_effect_lem (cancelled item) m = refl

on_effects_lem :
    (es : List Effect) (m : ServerMetrics)
    → ((on_effects es m).pending_accept_count + tally downs es) % 2 ^ 64
      ≡ (m.pending_accept_count + tally ups es) % 2 ^ 64
unfolding on_effects tally
on_effects_lem [] m = refl
on_effects_lem (e ∷ es) m = omega (arith, on_effect_lem e (on_effects es m), on_effects_lem es m)

-- A count that passes over clean-ups does not change with them.
quiet_calls :
    (f : Effect → ℕ) (calls : List (Unit {0} × Option ℕ))
    → ((item : Option ℕ) → f (given_back item) ≡ 0)
    → tally f (give_back calls) ≡ 0
unfolding tally
quiet_calls f [] h = refl
quiet_calls f (call ∷ calls) h = omega (arith, h (call.1), quiet_calls f calls h)

quiet_close :
    (f : Effect → ℕ) (o : Option ℕ) → ((s : ℕ) → f (closed s) ≡ 0) → tally f (close_socket o) ≡ 0
unfolding tally
quiet_close f none h = refl
quiet_close f (some s) h = omega (arith, h s)

tally-clean_up :
    (f : Effect → ℕ) (item : ℕ) (c : DeferContext (Unit {0})) (a : Acceptor)
    → ((i : Option ℕ) → f (given_back i) ≡ 0)
    → ((s : ℕ) → f (closed s) ≡ 0)
    → tally f (clean_up item c a).trace ≡ tally f a.trace
unfolding clean_up
tally-clean_up f item c a h k = omega (
  arith,
  tally-append f (give_back (destroy c)) (close_socket (a.clients item) ++ a.trace),
  tally-append f (close_socket (a.clients item)) a.trace,
  quiet_calls f (destroy c) h,
  quiet_close f (a.clients item) k,
)

-- Each request that was posted is reported as ended, or is outstanding.
abbrev IsLevel : Acceptor → Type 0
IsLevel a = tally ups a.trace ≡ tally downs a.trace + outstanding a

post_accept-IsLevel :
    (w : Answers) (a : Acceptor)
    → find w.item a.holder.items ≡ none
    → IsLevel a
    → IsLevel (post_accept w a).0
unfolding tally ups downs
post_accept-IsLevel w a fresh h = elim (Option-cases w.socket) [
  | inl e ↦ rw (post_accept_unmade w a e) (omega (arith, h))
  | inr (t, e) ↦ elim (Bool-cases w.started) [
    | inl started ↦ rw (post_accept_held w a fresh e started) (omega (arith, h))
    | inr refused ↦ rw (post_accept_refused w a e refused) (omega (arith, h))
  ]
]

clean_up-IsLevel :
    (item : ℕ) (c : DeferContext (Unit {0})) (a : Acceptor)
    → IsLevel a
    → IsLevel (clean_up item c a)
unfolding ups downs clean_up
clean_up-IsLevel item c a h =
    tally-clean_up ups item c a (λ i. refl) (λ s. refl)
    ∙ (h
        ∙ ap (λ n. n + outstanding a) (sym (tally-clean_up downs item c a (λ i. refl) (λ s. refl))))

tally-handed :
    (f : Effect → ℕ) (b : Bool) (s : Option ℕ)
    → ((o : Option ℕ) → f (handed o) ≡ 0)
    → tally f (if b then handed s ∷ [] else []) ≡ 0
unfolding tally
tally-handed f true s h = omega (arith, h s)
tally-handed f false s h = refl

given-IsLevel :
    (item : ℕ) (a : Acceptor)
    → tally ups a.trace ≡ tally downs a.trace + outstanding a + 1
    → IsLevel (given item a)
unfolding tally ups downs
given-IsLevel item a h =
    let taken = if a.callback then handed (a.clients item) ∷ [] else [] in
    omega (
      arith,
      h,
      tally-append ups taken a.trace,
      tally-append downs taken a.trace,
      tally-handed ups a.callback (a.clients item) (λ o. refl),
      tally-handed downs a.callback (a.clients item) (λ o. refl),
    )

finish-IsLevel :
    (item : ℕ) (c : DeferContext (Unit {0})) (updated : Bool) (w : Answers) (a : Acceptor)
    → find w.item a.holder.items ≡ none
    → tally ups a.trace ≡ tally downs a.trace + outstanding a + 1
    → IsLevel (finish item c updated w a).0
unfolding finish hand_over fail_completion tally ups downs
finish-IsLevel item c true w a fresh h =
    clean_up-IsLevel item c (post_accept w (given item a)).0
      (post_accept-IsLevel w (given item a) fresh (given-IsLevel item a h))
finish-IsLevel item c false w a fresh h =
    clean_up-IsLevel item c (fail_completion a).0 (omega (arith, h))

-- Each completion is one of a request to accept, and its item is held.
unfoldable pub IsExpected : Call → Acceptor → Type 0
IsExpected (posts w) a = Unit
IsExpected (completes none updated w) a = ⊥
IsExpected (completes (some (item, io)) updated w) a =
    (io ≡ accept) × (c : DeferContext (Unit {0})) × (find item a.holder.items ≡ some c)

unfoldable pub AreExpected : List Call → Acceptor → Type 0
AreExpected [] a = Unit
AreExpected (call ∷ calls) a = IsExpected call a × AreExpected calls (run call a)

run-IsLevel :
    (call : Call) (a : Acceptor)
    → find (answers call).item a.holder.items ≡ none
    → IsExpected call a
    → IsLevel a
    → IsLevel (run call a)
unfolding run IsExpected
run-IsLevel (posts w) a fresh known h = post_accept-IsLevel w a fresh h
run-IsLevel (completes none updated w) a fresh known h = absurd known
run-IsLevel (completes (some (item, io)) updated w) a fresh (is_accept, c, found) h =
    rw (is_accept) (
      subst IsLevel (sym (complete_held item c updated w a found)) (
        finish-IsLevel item c updated w
          (record a { holder = record { items = remove item a.holder.items } })
          (find-remove-none w.item item a.holder.items fresh)
          (omega (arith, h, length-remove item c a.holder.items found))))

run_all-IsLevel :
    (calls : List Call) (a : Acceptor)
    → IsFair calls a
    → AreExpected calls a
    → IsLevel a
    → IsLevel (run_all calls a)
unfolding run_all IsFair AreExpected
run_all-IsLevel [] a fair known h = h
run_all-IsLevel (call ∷ calls) a fair known h =
    run_all-IsLevel calls (run call a) fair.1 known.1 (run-IsLevel call a fair.0 known.0 h)

-- With the metrics' callbacks bound, the gauge of pending accepts stands at the number of outstanding
-- requests, modulo 2^64, after any sequence of requests and completions, failed ones among them, if each
-- completion is one of a request whose item is held and the pool gives out no item that is held.
pub pending_accept_count-run_all :
    (calls : List Call) (m : ServerMetrics)
    → IsFair calls idle
    → AreExpected calls idle
    → m.pending_accept_count ≡ 0
    → (on_effects (run_all calls idle).trace m).pending_accept_count % 2 ^ 64
      ≡ outstanding (run_all calls idle) % 2 ^ 64
unfolding tally
pending_accept_count-run_all calls m fair known zeroed = omega (
  arith,
  zeroed,
  on_effects_lem (run_all calls idle).trace m,
  run_all-IsLevel calls idle fair known (omega arith),
)
