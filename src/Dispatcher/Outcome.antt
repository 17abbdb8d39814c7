-- ===== src/Dispatcher/Outcome.antt =====
-- What the assembly of frames leaves: the commands in the queue, the pending bytes, the connection.
use highp_mmorpg.Prelude.{
  ℕ, ◌≡◌, refl, sym, ap, subst, ◌∙◌, false, List, [], ◌++◌, none, map, arith, length, append-nil,
}
use highp_mmorpg.Frame.{FrameBuffer, contents}
use highp_mmorpg.Frame.Contents.{IsValid}
use highp_mmorpg.Client.{Client}
use highp_mmorpg.Dispatcher.Decode.{Decoded, waiting, refused}
use highp_mmorpg.Dispatcher.{Event, CommandQueue, Dispatcher, PacketCommand, close_client, report}

-- What a command carries, its time apart.
abbrev pub carried : PacketCommand → ℕ × List ℕ
carried cmd = (cmd.client, cmd.bytes)

-- The commands that wait in the queue.
abbrev pub queued : Dispatcher → List (ℕ × List ℕ)
queued d = map carried d.command_queue.write_queue

abbrev pub from_slot : ℕ → List (List ℕ) → List (ℕ × List ℕ)
from_slot slot = map (λ bytes. (slot, bytes))

-- What the loop has done when it stops: the payloads of the decoded frames are queued in order, the
-- bytes that remain are pending, and the connection is untouched or is closed.
pub record Assembled (slot : ℕ) (c : Client) (d : Dispatcher) (out : Decoded) (c' : Client)
    (d' : Dispatcher) : Type 0 where
  pub valid : IsValid c'.frame_buf
  pub array : length c'.frame_buf.buf ≡ length c.frame_buf.buf
  pub pending : contents c'.frame_buf ≡ out.rest
  pub commands : queued d' ≡ queued d ++ from_slot slot out.payloads
  pub kept : out.verdict ≡ waiting → c' ≡ record c { frame_buf = c'.frame_buf }
  pub closed : out.verdict ≡ refused → (c'.socket ≡ none) × (c'.connection_established ≡ false)

pub close_client_lem :
    (c : Client) (d : Dispatcher)
    → let (c', d') = close_client c d in
      (c'.socket ≡ none)
      × (c'.connection_established ≡ false)
      × (c'.frame_buf ≡ c.frame_buf)
      × (d'.command_queue ≡ d.command_queue)
unfolding close_client
close_client_lem c d = ground arith

pub stop-Assembled :
    (slot : ℕ) (c : Client) (d : Dispatcher)
    → IsValid c.frame_buf
    → Assembled slot c d
        (record { payloads = []; rest = contents c.frame_buf; verdict = waiting })
        c
        d
stop-Assembled slot c d v = record {
  valid = v;
  array = refl;
  pending = refl;
  commands = sym (append-nil (queued d));
  kept = λ _. refl;
  closed = λ e. absurd (ground arith);
}

pub closed-Assembled :
    (slot : ℕ) (c : Client) (d : Dispatcher) (es : List Event)
    → IsValid c.frame_buf
    → let (c', d') = close_client c (report d es) in
      Assembled slot c d
        (record { payloads = []; rest = contents c.frame_buf; verdict = refused })
        c'
        d'
closed-Assembled slot c d es v =
    let (gone, down, buf, queue) = close_client_lem c (report d es) in
    record {
      valid = subst IsValid (sym buf) v;
      array = ap (λ (f : FrameBuffer). length f.buf) buf;
      pending = ap contents buf;
      commands =
          ap (λ (q : CommandQueue PacketCommand). map carried q.write_queue) queue
          ∙ sym (append-nil (queued d));
      kept = λ e. absurd (ground arith);
      closed = λ _. (gone, down);
    }
