-- ===== src/Chat/Loop/Serving.antt =====
-- Every command that the game loop accepts is served: Chat/Loop.antt.
use highp_mmorpg.Prelude.{
  ℕ, ◌≡◌, sym, ap, ◌∙◌, inl, inr, true, false, List, [], ◌∷◌, ◌++◌, some, append-nil, append_assoc,
  Bool-cases, if◌then◌else◌,
}
use highp_mmorpg.Client.{Client}
use highp_mmorpg.Frame.Contents.{IsValid}
use highp_mmorpg.Dispatcher.Wire.{Flatbuffers}
use highp_mmorpg.Dispatcher
use highp_mmorpg.Dispatcher.{
  PacketCommand, Dispatcher, report, push, push_command, close_client, drain_to,
}
use highp_mmorpg.Dispatcher.Receiving.{receive_total}
use highp_mmorpg.Dispatcher.Commands.{AllTyped, AllTyped-IsKept, IsKept, receive_kept, at_end}
use highp_mmorpg.Chat.Loop.{GameLoop, answered, receive}

abbrev pub queue : GameLoop → List PacketCommand
queue g = g.dispatcher.command_queue.write_queue

-- The queue has grown, at its end, by some commands.
abbrev Grown : Dispatcher → Dispatcher → Type 0
Grown d d' =
    (cmds : List PacketCommand) × (d'.command_queue.write_queue
      ≡ d.command_queue.write_queue ++ cmds)

module _ (fb : Flatbuffers) (now : ℕ → ℕ) where
  Grown-IsKept : (d : Dispatcher) → IsKept fb now (Grown d)
  unfolding push_command push close_client
  Grown-IsKept d = record {
    failing = λ d' h. h;
    succeeding = λ d' h. h;
    closing = λ c d' h. h;
    pushing = λ slot raw p d' e (cmds, h).
        let cmd : PacketCommand = record {
          client = slot;
          payload_type = fb.payload_type p;
          bytes = raw;
          enqueued_at_ns = now d'.readings;
        } in
        (
          cmds ++ cmd ∷ [],
          ap (λ q. q ++ cmd ∷ []) h ∙ append_assoc d.command_queue.write_queue cmds (cmd ∷ []),
        );
  }

  -- A call that the loop accepts or refuses.
  pub record Accepts (bytes : List ℕ) (slot : ℕ) (c : Client) (g : GameLoop)
      (cmds : List PacketCommand) (c' : Client) (g' : GameLoop) : Type 0 where
    pub answers : receive fb now slot bytes c g ≡ some (c', g')
    pub grows : queue g' ≡ queue g ++ cmds
    pub typed : AllTyped fb now g.dispatcher → AllTyped fb now g'.dispatcher

  receive_open :
      (slot : ℕ) (bytes : List ℕ) (c c' : Client) (g : GameLoop) (d : Dispatcher)
      → g.has_stopped ≡ false
      → Dispatcher.receive fb now slot bytes c g.dispatcher ≡ some (c', d)
      → receive fb now slot bytes c g ≡ some (c', record g { dispatcher = d })
  unfolding receive
  receive_open slot bytes c c' g d e h =
      ap
        (λ b.
          if b
          then some (c, g)
          else answered g (Dispatcher.receive fb now slot bytes c g.dispatcher))
        e
      ∙ ap (answered g) h

  receive_stopped :
      (slot : ℕ) (bytes : List ℕ) (c : Client) (g : GameLoop)
      → g.has_stopped ≡ true
      → receive fb now slot bytes c g ≡ some (c, g)
  unfolding receive
  receive_stopped slot bytes c g e =
      ap
        (λ b.
          if b
          then some (c, g)
          else answered g (Dispatcher.receive fb now slot bytes c g.dispatcher))
        e

  -- On a valid buffer the call returns, and only appends to the queue.
  pub receive-Accepts :
      (slot : ℕ) (bytes : List ℕ) (c : Client) (g : GameLoop)
      → IsValid c.frame_buf
      → (cmds : List PacketCommand) × (c' : Client) × (g' : GameLoop) × Accepts bytes slot c g cmds
          c' g'
  receive-Accepts slot bytes c g v = elim (Bool-cases g.has_stopped) [
    | inl e ↦ (
      [],
      c,
      g,
      record {
        answers = receive_stopped slot bytes c g e;
        grows = sym (append-nil (queue g));
        typed = λ h. h;
      },
    )
    | inr e ↦
        let (c', d, got) = receive_total fb now slot bytes c g.dispatcher v in
        let start : Grown g.dispatcher g.dispatcher = ([], sym (append-nil (queue g))) in
        let (cmds, grown) =
          at_end (Grown g.dispatcher)
            (receive_kept fb now (Grown-IsKept g.dispatcher) slot bytes c g.dispatcher start) got in
        (
          cmds,
          c',
          record g { dispatcher = d },
          record {
            answers = receive_open slot bytes c c' g d e got;
            grows = grown;
            typed = λ h.
                at_end (AllTyped fb now)
                  (receive_kept fb now (AllTyped-IsKept fb now) slot bytes c g.dispatcher h) got;
          },
        )
  ]
