-- ===== src/Dispatcher/Limits.antt =====
-- Which frames can never be assembled.
use highp_mmorpg.Prelude.{
  ℕ, ◌+◌, ◌≤◌, ◌<◌, ◌≡◌, sym, ap, subst, ◌∙◌, List, [], ◌++◌, arith, length, append-nil,
  length-append, Bool, some,
}
use highp_mmorpg.Frame.{max_frame_size, header_size, decode_header, contents}
use highp_mmorpg.Frame.Contents.{IsValid, length-contents}
use highp_mmorpg.Frame.Header.{decode_header-append}
use highp_mmorpg.Client.{Client}
use highp_mmorpg.Dispatcher.Wire.{Flatbuffers}
use highp_mmorpg.Dispatcher.Decode.{
  Decodes, Decoded, waiting, short, partial, oversized, malformed, frame,
}
use highp_mmorpg.Dispatcher.{Dispatcher, is_packet, receive}
use highp_mmorpg.Dispatcher.Outcome.{queued}
use highp_mmorpg.Dispatcher.Receiving.{receive_refines}

-- A header that the check of `Receive` passes, for a frame that does not fit the buffer.
abbrev pub IsUnreachable : ℕ → Type 0
IsUnreachable payload_len =
    (max_frame_size < header_size + payload_len) × (payload_len ≤ max_frame_size)

Decodes-unreachable :
    (valid : List ℕ → Bool) (bs : List ℕ) (out : Decoded)
    → header_size ≤ length bs
    → length bs ≤ max_frame_size
    → IsUnreachable (decode_header bs)
    → Decodes valid bs out
    → out ≡ record { payloads = []; rest = bs; verdict = waiting }
Decodes-unreachable valid bs out h k u (short a eq) = absurd (omega arith)
Decodes-unreachable valid bs out h k u (partial a b c eq) = eq
Decodes-unreachable valid bs out h k u (oversized a b eq) = absurd (omega arith)
Decodes-unreachable valid bs out h k u (malformed f n eq) = absurd (omega (arith, f.whole))
Decodes-unreachable valid bs out h k u (frame f n d eq) = absurd (omega (arith, f.whole))

module _ (fb : Flatbuffers) (now : ℕ → ℕ) where
  -- Once a header that announces 65533 to 65536 bytes is pending, no bytes that fit the buffer ever
  -- complete its frame: `Receive` queues nothing and goes on waiting, with all the bytes pending.
  pub receive_unreachable :
      (slot : ℕ) (bytes : List ℕ) (c : Client) (d : Dispatcher)
      → IsValid c.frame_buf
      → length c.frame_buf.buf ≡ max_frame_size
      → header_size ≤ c.frame_buf.len
      → IsUnreachable (decode_header (contents c.frame_buf))
      → c.frame_buf.len + length bytes ≤ max_frame_size
      → (c' : Client) × (d' : Dispatcher) × (receive fb now slot bytes c d ≡ some (c', d'))
        × (queued d' ≡ queued d)
        × (contents c'.frame_buf ≡ contents c.frame_buf ++ bytes)
        × (c'.socket ≡ c.socket)
  receive_unreachable slot bytes c d v size h u fits =
      let r = receive_refines fb now slot bytes c d v (omega arith) in
      let pending = length-contents c.frame_buf v in
      let same =
        Decodes-unreachable (is_packet fb now) (contents c.frame_buf ++ bytes) r.out
          (omega (arith, pending, length-append (contents c.frame_buf) bytes))
          (omega (arith, pending, length-append (contents c.frame_buf) bytes))
          (subst IsUnreachable
            (sym (decode_header-append (contents c.frame_buf) bytes (omega (arith, pending)))) u)
          r.decodes in
      (
        r.client,
        r.dispatcher,
        r.runs,
        r.assembled.commands ∙ (rw same (append-nil (queued d))),
        r.assembled.pending ∙ ap (λ (o : Decoded). o.rest) same,
        ap (λ (b : Client). b.socket) (r.assembled.kept (ap (λ (o : Decoded). o.verdict) same)),
      )
