-- ===== src/Multiplexer/Working.antt =====
-- What the workers hand over, in any interleaving: Multiplexer.antt.
use highp_mmorpg.Prelude.{
  ℕ, zero, suc, ◌+◌, ◌-◌, ◌<◌, ◌==◌, ◌≡◌, refl, sym, ap, subst, ◌∙◌, ◌⊎◌, inl, inr, Bool, true,
  false, ◌||◌, List, [], ◌∷◌, ◌++◌, some, arith, Bool-cases, Option-cases, if◌then◌else◌, replicate,
  pick, tally, tally-one, tally-pick,
}
use highp_mmorpg.Multiplexer.{
  Packet, CompletionEvent, Event, worker_dispatch_begin, worker_dispatch_end, completion, Worker,
  begins, handles, ends, tests, Multiplexer, initialize, enqueue, post_completion, wake_up,
  shutdown, wake, is_wake_up, is_aborted, event_of, receive, take_from, take, work, work_on, Work,
  takes, advances, work_step, Step, initializes, posts, arrives, shuts_down, wakes, works, step,
  run, fresh,
}

-- A worker takes no packet, or the first one.
take_from-cases :
    (qs : List Packet) (m : Multiplexer)
    → m.packets ≡ qs
    → (take_from qs m ≡ m)
      ⊎ ((p : Packet) × (ps : List Packet) × (m.packets ≡ p ∷ ps)
          × (0 < m.waiting)
          × (take_from qs m ≡ receive p (record m { packets = ps; waiting = m.waiting - 1 })))
unfolding take_from
take_from-cases [] m e = inl refl
take_from-cases (p ∷ ps) m e = elim (Bool-cases (m.waiting == 0)) [
  | inl f ↦
      inl (
        ap (λ b. if b then m else receive p (record m { packets = ps; waiting = m.waiting - 1 })) f)
  | inr f ↦ inr (
    p,
    ps,
    e,
    ground (arith, f),
    ap (λ b. if b then m else receive p (record m { packets = ps; waiting = m.waiting - 1 })) f,
  )
]

pub Take-cases :
    (m : Multiplexer)
    → (take m ≡ m)
      ⊎ ((p : Packet) × (ps : List Packet) × (m.packets ≡ p ∷ ps)
          × (0 < m.waiting)
          × (take m ≡ receive p (record m { packets = ps; waiting = m.waiting - 1 })))
unfolding take
Take-cases m = take_from-cases m.packets m refl

-- A busy worker takes no step, or one of its own.
pub Advance-cases :
    (i : ℕ) (m : Multiplexer)
    → (work_step (advances i) m ≡ m)
      ⊎ ((w : Worker) × (ws : List Worker) × (pick i m.busy ≡ some (w, ws))
          × (work_step (advances i) m ≡ work w (record m { busy = ws })))
unfolding work_step
Advance-cases i m = elim (Option-cases (pick i m.busy)) [
  | inl e ↦ inl (ap (λ r. work_on r m) e)
  | inr ((w, ws), e) ↦ inr (w, ws, e, ap (λ r. work_on r m) e)
]

-- A thread that was still to be woken.
abbrev pub woken : Bool → Multiplexer → Multiplexer
woken true m = enqueue wake_up (record m { to_wake = m.to_wake - 1 })
woken false m = record m { to_wake = m.to_wake - 1 }

pub Wake-cases :
    (posted : Bool) (m : Multiplexer)
    → (wake posted m ≡ m) ⊎ ((0 < m.to_wake) × (wake posted m ≡ woken posted m))
unfolding wake
Wake-cases true m = elim (Bool-cases (m.to_wake == 0)) [
  | inl e ↦ inl (ap (λ b. if b then m else woken true m) e)
  | inr e ↦ inr (ground (arith, e), ap (λ b. if b then m else woken true m) e)
]
Wake-cases false m = elim (Bool-cases (m.to_wake == 0)) [
  | inl e ↦ inl (ap (λ b. if b then m else woken false m) e)
  | inr e ↦ inr (ground (arith, e), ap (λ b. if b then m else woken false m) e)
]

-- The packet is handed over, if it is neither a wake-up nor an aborted operation and its event passes the
-- test.
module _ (test : CompletionEvent → Bool) where
  abbrev pub passes : CompletionEvent → ℕ
  passes e = if test e then 1 else 0

  abbrev pub expected : Packet → ℕ
  expected p = if is_wake_up p || is_aborted p then 0 else passes (event_of p)

  abbrev pub handed : Event → ℕ
  handed (completion e) = passes e
  handed worker_dispatch_begin = 0
  handed worker_dispatch_end = 0

  abbrev pub in_hand : Worker → ℕ
  in_hand (begins p) = passes (event_of p)
  in_hand (handles p) = passes (event_of p)
  in_hand ends = 0
  in_hand tests = 0

  -- The completions with such an event that came in by a step.
  abbrev pub come : Step → ℕ
  come (initializes created n) = 0
  come (posts posted p) = if posted then expected p else 0
  come (arrives p) = expected p
  come shuts_down = 0
  come (wakes posted) = 0
  come (works w) = 0

  -- Those that were handed over, that a worker holds, and that wait in the port.
  unfoldable pub present : Multiplexer → ℕ
  present m = tally handed m.events + (tally in_hand m.busy + tally expected m.packets)

  present-enqueue : (p : Packet) (m : Multiplexer) → present (enqueue p m) ≡ present m + expected p
  unfolding present
  present-enqueue p m = omega (arith, tally-one expected m.packets p)

  tally-tests :
      (n : ℕ) (ws : List Worker) → tally in_hand (replicate n tests ++ ws) ≡ tally in_hand ws
  unfolding tally
  tally-tests zero ws = refl
  tally-tests (suc n) ws = omega (arith, tally-tests n ws)

  present-work : (w : Worker) (m : Multiplexer) → present (work w m) ≡ in_hand w + present m
  unfolding present work tally
  present-work (begins p) m = omega (arith, tally-one handed m.events worker_dispatch_begin)
  present-work (handles p) m = omega (arith, tally-one handed m.events (completion (event_of p)))
  present-work ends m = omega (arith, tally-one handed m.events worker_dispatch_end)
  present-work tests m = ground arith

  received :
      (leaves : Bool) (p : Packet) (m : Multiplexer)
      → present (if leaves then m else record m { busy = begins p ∷ m.busy })
        ≡ (if leaves then 0 else passes (event_of p)) + present m
  unfolding present tally
  received true p m = omega arith
  received false p m = omega arith

  present-receive : (p : Packet) (m : Multiplexer) → present (receive p m) ≡ expected p + present m
  unfolding receive
  present-receive p m = received (is_wake_up p || is_aborted p) p m

  present-take : (m : Multiplexer) → present (take m) ≡ present m
  unfolding present tally
  present-take m = elim (Take-cases m) [
    | inl e ↦ ap present e
    | inr (p, ps, e, h, f) ↦
        let m₀ = record m { packets = ps; waiting = m.waiting - 1 } in
        ap present f ∙ (present-receive p m₀ ∙ omega (arith, ap (tally expected) e))
  ]

  present-work_step : (w : Work) (m : Multiplexer) → present (work_step w m) ≡ present m
  unfolding present
  present-work_step takes m = unfold work_step in present-take m
  present-work_step (advances i) m = elim (Advance-cases i m) [
    | inl e ↦ ap present e
    | inr (w, ws, e, f) ↦
        ap present f
        ∙ (present-work w (record m { busy = ws })
            ∙ omega (arith, tally-pick in_hand i m.busy w ws e))
  ]

  present-woken : (posted : Bool) (m : Multiplexer) → present (woken posted m) ≡ present m
  unfolding present
  present-woken true m =
      present-enqueue wake_up (record m { to_wake = m.to_wake - 1 }) ∙ omega arith
  present-woken false m = refl

  present-wake : (posted : Bool) (m : Multiplexer) → present (wake posted m) ≡ present m
  present-wake posted m = elim (Wake-cases posted m) [
    | inl e ↦ ap present e
    | inr (h, e) ↦ ap present e ∙ present-woken posted m
  ]

  present-step : (s : Step) (m : Multiplexer) → present (step s m) ≡ present m + come s
  unfolding step present
  present-step (initializes true n) m = unfold initialize in omega (arith, tally-tests n m.busy)
  present-step (initializes false n) m = unfold initialize in omega arith
  present-step (posts true p) m = unfold post_completion in present-enqueue p m
  present-step (posts false p) m = unfold post_completion in omega arith
  present-step (arrives p) m = present-enqueue p m
  present-step shuts_down m = unfold shutdown in ground arith
  present-step (wakes posted) m = present-wake posted m ∙ omega arith
  present-step (works w) m = present-work_step w m ∙ omega arith

  -- The completions with such an event that came in.
  unfoldable pub come_all : List Step → ℕ
  come_all [] = 0
  come_all (s ∷ ss) = come s + come_all ss

  present-run : (ss : List Step) (m : Multiplexer) → present (run ss m) ≡ present m + come_all ss
  unfolding run come_all
  present-run [] m = omega arith
  present-run (s ∷ ss) m = omega (arith, present-run ss (step s m), present-step s m)

abbrev pub is_begin : Event → ℕ
is_begin worker_dispatch_begin = 1
is_begin worker_dispatch_end = 0
is_begin (completion e) = 0

abbrev pub is_end : Event → ℕ
is_end worker_dispatch_end = 1
is_end worker_dispatch_begin = 0
is_end (completion e) = 0

-- A worker between the two callbacks.
abbrev pub is_inside : Worker → ℕ
is_inside (begins p) = 0
is_inside (handles p) = 1
is_inside ends = 1
is_inside tests = 0

-- The calls of `onWorkerDispatchBegin` are those of `onWorkerDispatchEnd` and the workers in between.
abbrev pub Paired : Multiplexer → Type 0
Paired m = tally is_begin m.events ≡ tally is_end m.events + tally is_inside m.busy

tests_outside :
    (n : ℕ) (ws : List Worker) → tally is_inside (replicate n tests ++ ws) ≡ tally is_inside ws
unfolding tally
tests_outside zero ws = refl
tests_outside (suc n) ws = omega (arith, tests_outside n ws)

work-Paired :
    (w : Worker) (m : Multiplexer)
    → tally is_begin m.events ≡ tally is_end m.events + (is_inside w + tally is_inside m.busy)
    → Paired (work w m)
unfolding work tally
work-Paired (begins p) m h = omega (
  arith,
  h,
  tally-one is_begin m.events worker_dispatch_begin,
  tally-one is_end m.events worker_dispatch_begin,
)
work-Paired (handles p) m h = omega (
  arith,
  h,
  tally-one is_begin m.events (completion (event_of p)),
  tally-one is_end m.events (completion (event_of p)),
)
work-Paired ends m h = omega (
  arith,
  h,
  tally-one is_begin m.events worker_dispatch_end,
  tally-one is_end m.events worker_dispatch_end,
)
work-Paired tests m h = ground (arith, h)

receive-Paired : (p : Packet) (m : Multiplexer) → Paired m → Paired (receive p m)
unfolding receive tally
receive-Paired p m h = elim (Bool-cases (is_wake_up p || is_aborted p)) [
  | inl e ↦
      subst Paired (sym (ap (λ b. if b then m else record m { busy = begins p ∷ m.busy }) e)) h
  | inr e ↦
      subst Paired (sym (ap (λ b. if b then m else record m { busy = begins p ∷ m.busy }) e))
        (omega (arith, h))
]

work_step-Paired : (w : Work) (m : Multiplexer) → Paired m → Paired (work_step w m)
work_step-Paired takes m h =
    unfold work_step in
    elim (Take-cases m) [
      | inl e ↦ subst Paired (sym e) h
      | inr (p, ps, e, k, f) ↦
          let m₀ = record m { packets = ps; waiting = m.waiting - 1 } in
          subst Paired (sym f) (receive-Paired p m₀ h)
    ]
work_step-Paired (advances i) m h = elim (Advance-cases i m) [
  | inl e ↦ subst Paired (sym e) h
  | inr (w, ws, e, f) ↦ subst Paired (sym f) (
      work-Paired w (record m { busy = ws })
        (omega (arith, h, tally-pick is_inside i m.busy w ws e)))
]

wake-Paired : (posted : Bool) (m : Multiplexer) → Paired m → Paired (wake posted m)
unfolding wake
wake-Paired true m h = ground (arith, h)
wake-Paired false m h = ground (arith, h)

step-Paired : (s : Step) (m : Multiplexer) → Paired m → Paired (step s m)
unfolding step initialize post_completion shutdown
step-Paired (initializes true n) m h = omega (arith, h, tests_outside n m.busy)
step-Paired (initializes false n) m h = h
step-Paired (posts true p) m h = h
step-Paired (posts false p) m h = h
step-Paired (arrives p) m h = h
step-Paired shuts_down m h = ground (arith, h)
step-Paired (wakes posted) m h = wake-Paired posted m h
step-Paired (works w) m h = work_step-Paired w m h

run-Paired : (ss : List Step) (m : Multiplexer) → Paired m → Paired (run ss m)
unfolding run
run-Paired [] m h = h
run-Paired (s ∷ ss) m h = run-Paired ss (step s m) (step-Paired s m h)

-- From a new port, in any interleaving of the steps of its workers with arrivals, calls of PostCompletion
-- and Shutdown: of the completions that came in and whose event passes any given test, wake-ups and
-- aborted operations apart, each one was handed to the completion handler once, or is in the hands of a
-- worker before that call, or waits in the port. `onWorkerDispatchBegin` was called as often as
-- `onWorkerDispatchEnd`, but for the workers that are between the two.
pub handed-run :
    (test : CompletionEvent → Bool) (ss : List Step)
    → let m = run ss fresh in
      (tally (handed test) m.events
          + (tally (in_hand test) m.busy + tally (expected test) m.packets)
        ≡ come_all test ss)
      × Paired m
unfolding present tally
handed-run test ss = (present-run test ss fresh ∙ omega arith, run-Paired ss fresh refl)
