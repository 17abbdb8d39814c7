-- ===== src/Dispatcher/Receiving.antt =====
-- One call of `PacketDispatcher::Receive`: the append, then the assembly, or the refusal.
use highp_mmorpg.Prelude.{
  ℕ, suc, ◌+◌, ◌≤◌, ◌<◌, ◌≡◌, subst, ◌∙◌, inl, inr, List, [], ◌∷◌, ◌++◌, some, arith, length,
  Bool-cases, leb,
}
use highp_mmorpg.Frame.{append, contents}
use highp_mmorpg.Frame.Contents.{IsValid, append_refines}
use highp_mmorpg.Client.{Client}
use highp_mmorpg.Dispatcher.Wire.{Flatbuffers}
use highp_mmorpg.Dispatcher.Decode.{Decodes, Decoded}
use highp_mmorpg.Dispatcher.{
  Dispatcher, close_client, is_packet, receive, validation_failed, report,
}
use highp_mmorpg.Dispatcher.Outcome.{Assembled}
use highp_mmorpg.Dispatcher.Assembly.{assemble_refines}

module _ (fb : Flatbuffers) (now : ℕ → ℕ) where
  -- What one `Receive` does, when the bytes fit the buffer.
  pub record Received (slot : ℕ) (bytes : List ℕ) (c : Client) (d : Dispatcher) : Type 0 where
    pub out : Decoded
    pub client : Client
    pub dispatcher : Dispatcher
    pub runs : receive fb now slot bytes c d ≡ some (client, dispatcher)
    pub decodes : Decodes (is_packet fb now) (contents c.frame_buf ++ bytes) out
    pub assembled : Assembled slot c d out client dispatcher

  -- On a valid buffer and if the bytes fit it, `Receive` returns: the frames that the pending bytes
  -- and the new ones make up are queued in order for the slot, up to the first one that is too long
  -- or no packet. What is behind them stays pending, and if there is no such one only the buffer of
  -- the client has changed; if there is, the client has no socket.
  pub receive_refines :
      (slot : ℕ) (bytes : List ℕ) (c : Client) (d : Dispatcher)
      → IsValid c.frame_buf
      → c.frame_buf.len + length bytes ≤ length c.frame_buf.buf
      → Received slot bytes c d
  unfolding receive
  receive_refines slot bytes c d v fits =
      let c₁ = record c { frame_buf = (append c.frame_buf bytes).1 } in
      let (fit, array, alternatives) = append_refines c.frame_buf bytes v in
      elim alternatives [
        | inl (_, taken, grown) ↦
            let r =
              assemble_refines fb now slot (suc (length (contents c₁.frame_buf))) c₁ d fit
                (omega arith) in
            record {
              out = r.out;
              client = r.client;
              dispatcher = r.dispatcher;
              runs = rw taken r.runs;
              decodes = subst (λ bs. Decodes (is_packet fb now) bs r.out) grown r.decodes;
              assembled = record {
                valid = r.assembled.valid;
                array = r.assembled.array ∙ array;
                pending = r.assembled.pending;
                commands = r.assembled.commands;
                kept = λ w. r.assembled.kept w;
                closed = r.assembled.closed;
              };
            }
        | inr (over, _, _) ↦ absurd (omega arith)
      ]

  -- On a valid buffer, if the bytes do not fit behind those that are pending, nothing is queued, a
  -- failed validation is reported, and the connection is closed with the buffer as it was.
  pub receive_overflow :
      (slot : ℕ) (bytes : List ℕ) (c : Client) (d : Dispatcher)
      → IsValid c.frame_buf
      → length c.frame_buf.buf < c.frame_buf.len + length bytes
      → receive fb now slot bytes c d ≡ some (close_client c (report d (validation_failed ∷ [])))
  unfolding receive
  receive_overflow slot bytes c d v over = elim (append_refines c.frame_buf bytes v).2 [
    | inl (fits, _, _) ↦ absurd (omega arith)
    | inr (_, taken, same) ↦ rw (taken, same)
  ]

  -- `Receive` returns on every input.
  pub receive_total :
      (slot : ℕ) (bytes : List ℕ) (c : Client) (d : Dispatcher)
      → IsValid c.frame_buf
      → (c' : Client) × (d' : Dispatcher) × (receive fb now slot bytes c d ≡ some (c', d'))
  receive_total slot bytes c d v =
      elim (Bool-cases (leb (c.frame_buf.len + length bytes) (length c.frame_buf.buf))) [
        | inl fits ↦
            let r = receive_refines slot bytes c d v (ground arith) in
            (r.client, r.dispatcher, r.runs)
        | inr over ↦
            let (c', d') = close_client c (report d (validation_failed ∷ [])) in
            (c', d', receive_overflow slot bytes c d v (ground arith))
      ]
