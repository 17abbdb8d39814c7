-- ===== src/Multiplexer/Ending.antt =====
-- Shutdown and the end of the workers, in any interleaving: Multiplexer.antt.
use highp_mmorpg.Prelude.{
  zero, suc, pick, tally, tally-pick, ℕ, suc, ◌+◌, ◌-◌, ◌*◌, ◌≤◌, ◌<◌, ◌==◌, ◌≡◌, refl, sym, ap,
  subst, ◌∙◌, ◌⊎◌, inl, inr, Bool, true, false, List, [], ◌∷◌, arith, All, Bool-cases, List-cases,
  length, length-append, if◌then◌else◌, ◌||◌,
}
use highp_mmorpg.Multiplexer.{
  Packet, Worker, begins, handles, ends, tests, Multiplexer, enqueue, post_completion, wake_up,
  shutdown, wake, is_wake_up, is_aborted, receive, take_from, take, work, work_on, takes, advances,
  work_step, Step, initializes, posts, arrives, shuts_down, wakes, works, step, run, fresh,
}
use highp_mmorpg.Multiplexer.Manned.{alive, fresh-IsManned}
use highp_mmorpg.Multiplexer.Working.{woken, Take-cases, Advance-cases, Wake-cases}

-- The steps that a worker makes before it leaves, if it does not wait again.
abbrev pub ahead : Worker → ℕ
ahead (begins p) = 4
ahead (handles p) = 3
ahead ends = 2
ahead tests = 1

-- How much is left to do for Shutdown and the workers.
unfoldable pub remaining : Multiplexer → ℕ
remaining m = m.to_wake + (tally ahead m.busy + 5 * m.waiting)

-- A step that may come once Shutdown has begun; every wake-up is posted.
abbrev pub is_ending : Step → Bool
is_ending (initializes created n) = false
is_ending (wakes posted) = posted
is_ending (posts posted p) = true
is_ending (arrives p) = true
is_ending shuts_down = true
is_ending (works w) = true

-- The port is off, and every waiting worker has a packet, or a thread that Shutdown still wakes.
record IsEnding (m : Multiplexer) : Type 0 where
  off : m.is_running ≡ false
  enough : m.waiting ≤ length m.packets + m.to_wake

-- A step that keeps this and does not add to what is left.
record Ends (m m' : Multiplexer) : Type 0 where
  ending : IsEnding m'
  less : remaining m' ≤ remaining m

receive-Ends :
    (p : Packet) (m m₀ : Multiplexer)
    → IsEnding m
    → suc (remaining m) ≤ remaining m₀
    → remaining m + 4 < remaining m₀
    → Ends m₀ (receive p m) × (remaining (receive p m) < remaining m₀)
unfolding receive remaining tally
receive-Ends p m m₀ h k l = elim (Bool-cases (is_wake_up p || is_aborted p)) [
  | inl e ↦
      subst (λ x. Ends m₀ x × (remaining x < remaining m₀))
        (sym (ap (λ b. if b then m else record m { busy = begins p ∷ m.busy }) e))
        (record { ending = h; less = omega (arith, k) }, omega (arith, k))
  | inr e ↦
      subst (λ x. Ends m₀ x × (remaining x < remaining m₀))
        (sym (ap (λ b. if b then m else record m { busy = begins p ∷ m.busy }) e))
        (
          record { ending = record { off = h.off; enough = h.enough }; less = omega (arith, l) },
          omega (arith, l),
        )
]

work-Ends :
    (w : Worker) (m m₀ : Multiplexer)
    → IsEnding m
    → remaining m₀ ≡ ahead w + remaining m
    → Ends m₀ (work w m) × (remaining (work w m) < remaining m₀)
unfolding work remaining tally
work-Ends (begins p) m m₀ h e = (
  record { ending = record { off = h.off; enough = h.enough }; less = omega (arith, e) },
  omega (arith, e),
)
work-Ends (handles p) m m₀ h e = (
  record { ending = record { off = h.off; enough = h.enough }; less = omega (arith, e) },
  omega (arith, e),
)
work-Ends ends m m₀ h e = (
  record { ending = record { off = h.off; enough = h.enough }; less = omega (arith, e) },
  omega (arith, e),
)
work-Ends tests m m₀ h e =
    subst (λ x. Ends m₀ x × (remaining x < remaining m₀))
      (sym (ap (λ b. if b then record m { waiting = m.waiting + 1 } else m) h.off))
      (record { ending = h; less = omega (arith, e) }, omega (arith, e))

-- A step that does nothing, or ends something.
Moves : Multiplexer → Multiplexer → Type 0
Moves m m' = (m' ≡ m) ⊎ (Ends m m' × (remaining m' < remaining m))

Moves-Ends : {m m' : Multiplexer} → IsEnding m → Moves m m' → Ends m m'
unfolding Moves
Moves-Ends {m = m} h (inl e) = subst (Ends m) (sym e) (record { ending = h; less = omega arith })
Moves-Ends h (inr e) = e.0

took-Ends :
    (p : Packet) (ps : List Packet) (m : Multiplexer)
    → IsEnding m
    → m.packets ≡ p ∷ ps
    → 0 < m.waiting
    → let m' = receive p (record m { packets = ps; waiting = m.waiting - 1 }) in
      Ends m m' × (remaining m' < remaining m)
unfolding remaining
took-Ends p ps m h e k =
    let m₁ = record m { packets = ps; waiting = m.waiting - 1 } in
    let ending : IsEnding m₁ = record {
      off = h.off;
      enough = omega (arith, h.enough, k, ap length e);
    } in
    receive-Ends p m₁ m ending (omega (arith, k)) (omega (arith, k))

take-Ends : (m : Multiplexer) → IsEnding m → Moves m (take m)
unfolding Moves
take-Ends m h = elim (Take-cases m) [
  | inl e ↦ inl e
  | inr (p, ps, e, k, f) ↦
      inr (subst (λ x. Ends m x × (remaining x < remaining m)) (sym f) (took-Ends p ps m h e k))
]

advance-Ends : (i : ℕ) (m : Multiplexer) → IsEnding m → Moves m (work_step (advances i) m)
unfolding Moves remaining
advance-Ends i m h = elim (Advance-cases i m) [
  | inl e ↦ inl e
  | inr (w, ws, e, f) ↦ inr (
      subst (λ x. Ends m x × (remaining x < remaining m)) (sym f)
        (work-Ends w (record m { busy = ws }) m (record { off = h.off; enough = h.enough })
          (omega (arith, tally-pick ahead i m.busy w ws e))))
]

woken-Ends :
    (m : Multiplexer)
    → IsEnding m
    → 0 < m.to_wake
    → Ends m (woken true m) × (remaining (woken true m) < remaining m)
unfolding remaining
woken-Ends m h k = (
  record {
    ending = record {
      off = h.off;
      enough = omega (arith, h.enough, k, length-append m.packets (wake_up ∷ []));
    };
    less = omega (arith, k);
  },
  omega (arith, k),
)

wake-Ends : (m : Multiplexer) → IsEnding m → Moves m (wake true m)
unfolding Moves
wake-Ends m h = elim (Wake-cases true m) [
  | inl e ↦ inl e
  | inr (k, f) ↦
      inr (subst (λ x. Ends m x × (remaining x < remaining m)) (sym f) (woken-Ends m h k))
]

enqueue-Ends : (p : Packet) (m : Multiplexer) → IsEnding m → Ends m (enqueue p m)
unfolding remaining
enqueue-Ends p m h = record {
  ending = record {
    off = h.off;
    enough = omega (arith, h.enough, length-append m.packets (p ∷ []));
  };
  less = omega arith;
}

shutdown_again : (m : Multiplexer) → m.is_running ≡ false → shutdown m ≡ m
unfolding shutdown
shutdown_again m e =
    ap (λ b. if b then record m { is_running = false; to_wake = m.threads } else m) e

step-Ends : (s : Step) (m : Multiplexer) → is_ending s ≡ true → IsEnding m → Ends m (step s m)
unfolding step post_completion work_step
step-Ends (initializes created n) m e h = absurd (ground arith)
step-Ends (posts true p) m e h = enqueue-Ends p m h
step-Ends (posts false p) m e h = record { ending = h; less = omega arith }
step-Ends (arrives p) m e h = enqueue-Ends p m h
step-Ends shuts_down m e h =
    subst (Ends m) (sym (shutdown_again m h.off)) (record { ending = h; less = omega arith })
step-Ends (wakes true) m e h = Moves-Ends h (wake-Ends m h)
step-Ends (wakes false) m e h = absurd (ground arith)
step-Ends (works takes) m e h = Moves-Ends h (take-Ends m h)
step-Ends (works (advances i)) m e h = Moves-Ends h (advance-Ends i m h)

run-IsEnding :
    (ss : List Step) (m : Multiplexer)
    → All (λ s. is_ending s ≡ true) ss
    → IsEnding m
    → IsEnding (run ss m)
unfolding run
run-IsEnding [] m a h = h
run-IsEnding (s ∷ ss) m (a, all) h = run-IsEnding ss (step s m) all (step-Ends s m a h).ending

-- A step that ends something: of a busy worker, of a waiting one that has a packet, or of Shutdown.
Progress : Multiplexer → Type 0
Progress m = (t : Step) × (is_ending t ≡ true) × (remaining (step t m) < remaining m)

pub take_first :
    (p : Packet) (ps : List Packet) (m : Multiplexer)
    → m.packets ≡ p ∷ ps
    → 0 < m.waiting
    → take m ≡ receive p (record m { packets = ps; waiting = m.waiting - 1 })
unfolding take take_from
take_first p ps m e k =
    ap (λ qs. take_from qs m) e
    ∙ ap (λ b. if b then m else receive p (record m { packets = ps; waiting = m.waiting - 1 }))
        (let busy : (m.waiting == 0) ≡ false = ground (arith, k) in busy)

wake_first : (m : Multiplexer) → 0 < m.to_wake → wake true m ≡ woken true m
unfolding wake
wake_first m k =
    ap (λ b. if b then m else woken true m)
      (let some_left : (m.to_wake == 0) ≡ false = ground (arith, k) in some_left)

waiting_progress : (m : Multiplexer) → IsEnding m → 0 < m.waiting → Progress m
unfolding Progress step work_step
waiting_progress m h k = elim (List-cases m.packets) [
  | inl e ↦
      let left : 0 < m.to_wake = omega (arith, h.enough, k, ap length e) in
      (
        wakes true,
        refl,
        subst (λ x. remaining x < remaining m) (sym (wake_first m left)) (woken-Ends m h left).1,
      )
  | inr (p, ps, e) ↦ (
    works takes,
    refl,
    subst (λ x. remaining x < remaining m) (sym (take_first p ps m e k)) (took-Ends p ps m h e k).1,
  )
]

busy_progress :
    (w : Worker) (ws : List Worker) (m : Multiplexer) → IsEnding m → m.busy ≡ w ∷ ws → Progress m
unfolding Progress step work_step pick remaining tally
busy_progress w ws m h e =
    let moved =
      work-Ends w (record m { busy = ws }) m (record { off = h.off; enough = h.enough })
        (omega (arith, ap (tally ahead) e)) in
    (
      works (advances 0),
      refl,
      subst (λ x. remaining x < remaining m) (sym (ap (λ bs. work_on (pick 0 bs) m) e)) moved.1,
    )

progress : (m : Multiplexer) → IsEnding m → (alive m ≡ 0) ⊎ Progress m
unfolding alive tally
progress m h = elim (List-cases m.busy) [
  | inr (w, ws, e) ↦ inr (busy_progress w ws m h e)
  | inl e ↦ elim (Bool-cases (m.waiting == 0)) [
    | inl f ↦ inl (ground (arith, f, e))
    | inr f ↦ inr (waiting_progress m h (ground (arith, f)))
  ]
]

-- From there the workers can be brought to their end, by no more steps than are left.
finishing :
    (n : ℕ) (m : Multiplexer)
    → IsEnding m
    → remaining m ≤ n
    → (ts : List Step) × All (λ t. is_ending t ≡ true) ts × (length ts ≤ n) × (alive (run ts m) ≡ 0)
unfolding Progress run
finishing zero m h k = elim (progress m h) [
  | inl over ↦ ([], tt, omega arith, over)
  | inr (t, e, less) ↦ absurd (omega (arith, less, k))
]
finishing (suc n) m h k = elim (progress m h) [
  | inl over ↦ ([], tt, omega arith, over)
  | inr (t, e, less) ↦
      let (ts, all, few, over) =
        finishing n (step t m) (step-Ends t m e h).ending (omega (arith, less, k)) in
      (t ∷ ts, (e, all), omega (arith, few), over)
]

shutdown-IsEnding :
    (ss : List Step) → (run ss fresh).is_running ≡ true → IsEnding (shutdown (run ss fresh))
unfolding shutdown alive
shutdown-IsEnding ss r =
    let m = run ss fresh in
    subst IsEnding
      (sym (ap (λ b. if b then record m { is_running = false; to_wake = m.threads } else m) r))
      (record { off = refl; enough = omega (arith, (fresh-IsManned ss).manned) })

-- Whatever happened to the port before, if it runs when Shutdown begins and PostQueuedCompletionStatus
-- answers each of its calls with success, then through any interleaving of Shutdown and the workers, with
-- packets that still come in: no step adds to the steps that are left; as long as a worker is in its loop,
-- there is a step that makes them fewer; and there are steps, no more than are left, after which every
-- worker has left its loop.
pub shutdown_ends :
    (before after : List Step) (s : Step)
    → (run before fresh).is_running ≡ true
    → All (λ t. is_ending t ≡ true) after
    → is_ending s ≡ true
    → let m = run after (shutdown (run before fresh)) in
      (remaining (step s m) ≤ remaining m)
      × ((alive m ≡ 0) ⊎ ((t : Step) × (is_ending t ≡ true) × (remaining (step t m) < remaining m)))
      × ((ts : List Step) × All (λ t. is_ending t ≡ true) ts
          × (length ts ≤ remaining m)
          × (alive (run ts m) ≡ 0))
unfolding Progress
shutdown_ends before after s r a e =
    let h = run-IsEnding after (shutdown (run before fresh)) a (shutdown-IsEnding before r) in
    ((step-Ends s _ e h).less, progress _ h, finishing (remaining _) _ h (omega arith))
