-- ===== src/Chat/Loop.antt =====
-- The game loop, exec/chat/chat-server/chat-server/GameLoop.cpp: the gate in front of the dispatcher and
-- the rounds of the logic thread. Times are nanoseconds of the steady clock, and arguments.
pub mod Serving
pub mod Runs
use highp_mmorpg.Prelude.{
  ℕ, ◌+◌, ◌-◌, ◌*◌, Bool, true, false, List, [], ◌∷◌, ◌++◌, Option, none, some, ltb, if◌then◌else◌,
}
use highp_mmorpg.Client.{Client}
use highp_mmorpg.Dispatcher.Wire.{Flatbuffers}
use highp_mmorpg.Dispatcher
use highp_mmorpg.Dispatcher.{Dispatcher}
use highp_mmorpg.Dispatcher.Tick.{Handlers, tick}

-- What a round reports, oldest first: `onTickDuration`, `onTickLag`.
pub data LoopEvent : Type 0 where
  tick_duration tick_lag : ℕ → LoopEvent

-- The managers are in the world that the handlers act on. `tick_ms` is not negative here.
pub record GameLoop : Type 0 where
  pub dispatcher : Dispatcher
  pub tick_ms : ℕ
  pub has_stopped : Bool
  pub reports : List LoopEvent

-- The flag that Stop sets before it makes the logic thread leave.
unfoldable pub stop : GameLoop → GameLoop
stop g = if g.has_stopped then g else record g { has_stopped = true }

-- What the thread does between two rounds.
pub data Pause : Type 0 where
  yields : Pause
  sleeps_until : ℕ → Pause

abbrev pub target : GameLoop → ℕ → ℕ
target g started = started + 1000000 * g.tick_ms

unfoldable pub pause : GameLoop → (started ended : ℕ) → Pause
pause g started ended =
    if ltb (target g started) ended then yields else sleeps_until (target g started)

unfoldable pub lag : GameLoop → (started ended : ℕ) → ℕ
lag g started ended = if ltb (target g started) ended then ended - target g started else 0

-- The loop after the dispatcher has answered.
abbrev pub answered : GameLoop → Option (Client × Dispatcher) → Option (Client × GameLoop)
answered g none = none
answered g (some (c, d)) = some (c, record g { dispatcher = d })

module _ (fb : Flatbuffers) (now : ℕ → ℕ) where
  -- Receive, on the client of the slot. `none` is that the rounds of the dispatcher ran out.
  unfoldable pub receive : ℕ → List ℕ → Client → GameLoop → Option (Client × GameLoop)
  receive slot bytes c g =
      if g.has_stopped
      then some (c, g)
      else answered g (Dispatcher.receive fb now slot bytes c g.dispatcher)

module _ (fb : Flatbuffers) (now : ℕ → ℕ) {World : Type 0} (close_slot : ℕ → World → World) where
  -- One round of Update.
  unfoldable pub update_round :
      Handlers fb now close_slot → (started ended : ℕ) → GameLoop → World → Pause × GameLoop × World
  unfolding pause lag
  update_round hs started ended g w =
      let (d, w') = tick fb now close_slot hs g.dispatcher w in
      (
        pause g started ended,
        record g {
          dispatcher = d;
          reports =
              g.reports ++ tick_duration (ended - started) ∷ tick_lag (lag g started ended) ∷ [];
        },
        w',
      )

  -- The deferred end of Update.
  unfoldable pub finish : Handlers fb now close_slot → GameLoop → World → GameLoop × World
  finish hs g w =
      let (d, w') = tick fb now close_slot hs g.dispatcher w in (record g { dispatcher = d }, w')
