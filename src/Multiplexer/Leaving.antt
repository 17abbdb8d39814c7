-- ===== src/Multiplexer/Leaving.antt =====
-- Workers that leave after aborted operations: Multiplexer.antt.
use highp_mmorpg.Prelude.{
  pick, ℕ, suc, ◌≤◌, ◌≡◌, refl, sym, ap, subst, ◌∙◌, true, List, [], ◌∷◌, ◌++◌, arith, length,
}
use highp_mmorpg.Multiplexer.{
  Packet, Multiplexer, is_aborted, receive, take_from, take, Work, takes, advances, work_step,
}

unfoldable pub AreAborted : List Packet → Type 0
AreAborted [] = Unit {0}
AreAborted (p ∷ ps) = (is_aborted p ≡ true) × AreAborted ps

unfoldable pub work_all : List Work → Multiplexer → Multiplexer
work_all [] m = m
work_all (w ∷ ws) m = work_all ws (work_step w m)

-- How often a waiting worker may take a packet.
unfoldable pub take_count : List Work → ℕ
take_count [] = 0
take_count (takes ∷ ws) = suc (take_count ws)
take_count (advances i ∷ ws) = take_count ws

-- The port with as many waiting workers as aborted operations in front, and no other workers.
abbrev at : List Packet → List Packet → Multiplexer → Multiplexer
at ps rest m = record m { packets = ps ++ rest; waiting = length ps; busy = [] }

take_none : (rest : List Packet) (m : Multiplexer) → take (at [] rest m) ≡ at [] rest m
unfolding take take_from
take_none [] m = refl
take_none (p ∷ ps) m = refl

take_aborted :
    (p : Packet) (ps rest : List Packet) (m : Multiplexer)
    → is_aborted p ≡ true
    → take (at (p ∷ ps) rest m) ≡ at ps rest m
unfolding take take_from receive
take_aborted p ps rest m e = ground (arith, e)

works_at :
    (ws : List Work) (ps rest : List Packet) (m : Multiplexer)
    → AreAborted ps
    → length ps ≤ take_count ws
    → work_all ws (at ps rest m) ≡ at [] rest m
unfolding work_all take_count AreAborted work_step pick
works_at [] [] rest m a h = refl
works_at [] (p ∷ ps) rest m a h = absurd (omega (arith, h))
works_at (takes ∷ ws) [] rest m a h =
    subst (λ x. work_all ws x ≡ at [] rest m) (sym (take_none rest m))
      (works_at ws [] rest m tt (omega arith))
works_at (takes ∷ ws) (p ∷ ps) rest m (a, all) h =
    subst (λ x. work_all ws x ≡ at [] rest m) (sym (take_aborted p ps rest m a))
      (works_at ws ps rest m all (omega (arith, h)))
works_at (advances i ∷ ws) ps rest m a h = works_at ws ps rest m a h

-- When the port has as many aborted operations in front as workers, all of them waiting, and the workers
-- take their steps in any order with at least that many takes, no worker is left: nothing that waits behind
-- the aborted operations is ever taken, and nothing else of the port has changed, the running flag included.
pub workers_lost :
    (ps rest : List Packet) (ws : List Work) (m : Multiplexer)
    → AreAborted ps
    → m.packets ≡ ps ++ rest
    → length ps ≡ m.waiting
    → m.busy ≡ []
    → length ps ≤ take_count ws
    → work_all ws m ≡ record m { packets = rest; waiting = 0 }
workers_lost ps rest ws m a e n b h =
    let same : m ≡ at ps rest m = ground (arith, e, n, b) in
    ap (work_all ws) same ∙ (works_at ws ps rest m a h ∙ ground (arith, b))
