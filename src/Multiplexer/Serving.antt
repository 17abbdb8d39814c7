-- ===== src/Multiplexer/Serving.antt =====
-- The completions that are handed over, and those that still can be: Multiplexer.antt.
use highp_mmorpg.Prelude.{
  ℕ, ◌+◌, ◌-◌, ◌*◌, ◌≤◌, ◌<◌, ◌==◌, ◌≡◌, sym, ap, subst, ◌⊎◌, inl, inr, Bool, List, [], ◌∷◌, arith,
  Bool-cases, List-cases, if◌then◌else◌, ◌||◌, length, pick, tally,
}
use highp_mmorpg.Multiplexer.{
  Packet, CompletionEvent, Worker, begins, handles, ends, tests, Multiplexer, is_wake_up,
  is_aborted, receive, work, work_on, Work, takes, advances, work_step, Step, run, fresh,
}
use highp_mmorpg.Multiplexer.Working.{handed, in_hand, expected, come_all, Paired, handed-run}
use highp_mmorpg.Multiplexer.Manned.{alive}
use highp_mmorpg.Multiplexer.Ending.{ahead, take_first}

-- The steps that the packets and the busy workers are still good for.
unfoldable pub to_serve : Multiplexer → ℕ
to_serve m = 6 * length m.packets + tally ahead m.busy

to_serve-receive : (p : Packet) (m : Multiplexer) → to_serve (receive p m) ≤ 4 + to_serve m
unfolding to_serve receive tally
to_serve-receive p m = elim (Bool-cases (is_wake_up p || is_aborted p)) [
  | inl e ↦
      subst (λ x. to_serve x ≤ 4 + to_serve m)
        (sym (ap (λ b. if b then m else record m { busy = begins p ∷ m.busy }) e)) (omega arith)
  | inr e ↦
      subst (λ x. to_serve x ≤ 4 + to_serve m)
        (sym (ap (λ b. if b then m else record m { busy = begins p ∷ m.busy }) e)) (omega arith)
]

to_serve-work : (w : Worker) (m : Multiplexer) → to_serve (work w m) < ahead w + to_serve m
unfolding to_serve work tally
to_serve-work (begins p) m = omega arith
to_serve-work (handles p) m = omega arith
to_serve-work ends m = omega arith
to_serve-work tests m = ground arith

-- A step of a worker that serves something.
Served : Multiplexer → Type 0
Served m = (w : Work) × (to_serve (work_step w m) < to_serve m)

busy_served : (w : Worker) (ws : List Worker) (m : Multiplexer) → m.busy ≡ w ∷ ws → Served m
unfolding Served work_step pick to_serve tally
busy_served w ws m e = (
  advances 0,
  subst (λ x. to_serve x < to_serve m) (sym (ap (λ bs. work_on (pick 0 bs) m) e))
      (omega (arith, to_serve-work w (record m { busy = ws }), ap (tally ahead) e)),
)

waiting_served :
    (p : Packet) (ps : List Packet) (m : Multiplexer)
    → m.packets ≡ p ∷ ps
    → 0 < m.waiting
    → Served m
unfolding Served work_step to_serve
waiting_served p ps m e k = (
  takes,
  subst (λ x. to_serve x < to_serve m) (sym (take_first p ps m e k))
      (omega (
        arith,
        to_serve-receive p (record m { packets = ps; waiting = m.waiting - 1 }),
        ap length e,
      )),
)

served_or_over : (m : Multiplexer) → (alive m ≡ 0) ⊎ (((m.packets ≡ []) × (m.busy ≡ [])) ⊎ Served m)
unfolding alive tally
served_or_over m = elim (List-cases m.busy) [
  | inr (w, ws, e) ↦ inr (inr (busy_served w ws m e))
  | inl e ↦ elim (List-cases m.packets) [
    | inl f ↦ inr (inl (f, e))
    | inr (p, ps, f) ↦ elim (Bool-cases (m.waiting == 0)) [
      | inl g ↦ inl (ground (arith, g, e))
      | inr g ↦ inr (inr (waiting_served p ps m f (ground (arith, g))))
    ]
  ]
]

-- From a new port, in any interleaving of the steps of its workers with arrivals, calls of PostCompletion
-- and Shutdown: of the completions that came in and whose event passes any given test, wake-ups and
-- aborted operations apart, each one was handed to the completion handler once, or is in the hands of a
-- worker before that call, or waits in the port. `onWorkerDispatchBegin` was called as often as
-- `onWorkerDispatchEnd`, but for the workers that are between the two. And as long as a worker is left, and
-- a packet waits or a worker is not waiting, a worker has a step that makes the steps still to be served
-- fewer.
pub run_serves :
    (test : CompletionEvent → Bool) (ss : List Step)
    → let m = run ss fresh in
      (tally (handed test) m.events
          + (tally (in_hand test) m.busy + tally (expected test) m.packets)
        ≡ come_all test ss)
      × Paired m
      × ((alive m ≡ 0)
          ⊎ (((m.packets ≡ []) × (m.busy ≡ []))
              ⊎ ((w : Work) × (to_serve (work_step w m) < to_serve m))))
unfolding Served
run_serves test ss =
    let (counted, paired) = handed-run test ss in (counted, paired, served_or_over (run ss fresh))
