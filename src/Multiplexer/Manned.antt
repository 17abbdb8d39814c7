-- ===== src/Multiplexer/Manned.antt =====
-- The workers and the threads of the port: Multiplexer.antt.
use highp_mmorpg.Prelude.{
  tally, tally-pick, ℕ, zero, suc, ◌+◌, ◌-◌, ◌≤◌, ◌<◌, ◌≡◌, sym, ap, subst, inl, inr, Bool, true,
  false, List, [], ◌∷◌, ◌++◌, arith, Bool-cases, replicate, if◌then◌else◌, ◌||◌,
}
use highp_mmorpg.Multiplexer.{
  Packet, Worker, begins, handles, ends, tests, Multiplexer, initialize, post_completion, shutdown,
  wake, is_wake_up, is_aborted, receive, work, Work, takes, advances, work_step, Step, initializes,
  posts, arrives, shuts_down, wakes, works, step, run, fresh,
}
use highp_mmorpg.Multiplexer.Working.{Take-cases, Advance-cases, Wake-cases}

-- The workers that are in their loop.
unfoldable pub alive : Multiplexer → ℕ
alive m = m.waiting + tally (λ w. 1) m.busy

-- A worker that has left its loop stays among the threads.
pub record IsManned (m : Multiplexer) : Type 0 where
  pub manned : alive m ≤ m.threads

alive-tests :
    (n : ℕ) (ws : List Worker) → tally (λ w. 1) (replicate n tests ++ ws) ≡ n + tally (λ w. 1) ws
unfolding tally
alive-tests zero ws = omega arith
alive-tests (suc n) ws = omega (arith, alive-tests n ws)

receive-IsManned : (p : Packet) (m : Multiplexer) → alive m < m.threads → IsManned (receive p m)
unfolding receive alive tally
receive-IsManned p m h = elim (Bool-cases (is_wake_up p || is_aborted p)) [
  | inl e ↦
      subst IsManned (sym (ap (λ b. if b then m else record m { busy = begins p ∷ m.busy }) e))
        (record { manned = omega (arith, h) })
  | inr e ↦
      subst IsManned (sym (ap (λ b. if b then m else record m { busy = begins p ∷ m.busy }) e))
        (record { manned = omega (arith, h) })
]

work-IsManned : (w : Worker) (m : Multiplexer) → alive m < m.threads → IsManned (work w m)
unfolding work alive tally
work-IsManned (begins p) m h = record { manned = omega (arith, h) }
work-IsManned (handles p) m h = record { manned = omega (arith, h) }
work-IsManned ends m h = record { manned = omega (arith, h) }
work-IsManned tests m h = record { manned = ground (arith, h) }

work_step-IsManned : (w : Work) (m : Multiplexer) → IsManned m → IsManned (work_step w m)
unfolding work_step alive
work_step-IsManned takes m h = elim (Take-cases m) [
  | inl e ↦ subst IsManned (sym e) h
  | inr (p, ps, e, k, f) ↦ subst IsManned (sym f) (
      receive-IsManned p (record m { packets = ps; waiting = m.waiting - 1 })
        (omega (arith, h.manned, k)))
]
work_step-IsManned (advances i) m h = elim (Advance-cases i m) [
  | inl e ↦ subst IsManned (sym e) h
  | inr (w, ws, e, f) ↦ subst IsManned (sym f) (
      work-IsManned w (record m { busy = ws })
        (omega (arith, h.manned, tally-pick (λ w. 1) i m.busy w ws e)))
]

wake-IsManned : (posted : Bool) (m : Multiplexer) → IsManned m → IsManned (wake posted m)
unfolding alive
wake-IsManned true m h = elim (Wake-cases true m) [
  | inl e ↦ subst IsManned (sym e) h
  | inr (k, e) ↦ subst IsManned (sym e) (record { manned = h.manned })
]
wake-IsManned false m h = elim (Wake-cases false m) [
  | inl e ↦ subst IsManned (sym e) h
  | inr (k, e) ↦ subst IsManned (sym e) (record { manned = h.manned })
]

step-IsManned : (s : Step) (m : Multiplexer) → IsManned m → IsManned (step s m)
unfolding step initialize post_completion shutdown alive
step-IsManned (initializes true n) m h = record {
  manned = omega (arith, h.manned, alive-tests n m.busy);
}
step-IsManned (initializes false n) m h = h
step-IsManned (posts true p) m h = record { manned = h.manned }
step-IsManned (posts false p) m h = h
step-IsManned (arrives p) m h = record { manned = h.manned }
step-IsManned shuts_down m h = record { manned = ground (arith, h.manned) }
step-IsManned (wakes posted) m h = wake-IsManned posted m h
step-IsManned (works w) m h = work_step-IsManned w m h

run-IsManned : (ss : List Step) (m : Multiplexer) → IsManned m → IsManned (run ss m)
unfolding run
run-IsManned [] m h = h
run-IsManned (s ∷ ss) m h = run-IsManned ss (step s m) (step-IsManned s m h)

pub fresh-IsManned : (ss : List Step) → IsManned (run ss fresh)
unfolding alive tally
fresh-IsManned ss = run-IsManned ss fresh (record { manned = omega arith })
