-- ===== src/Dispatcher/Feed.antt =====
-- The frames of a client's `SendFrame` calls come out of the dispatcher, however TCP cuts the stream.
use highp_mmorpg.Prelude.{
  ℕ, ◌≤◌, ◌≡◌, refl, sym, ap, subst, ◌∙◌, List, [], ◌∷◌, ◌++◌, some, map-append, arith, length,
  append_assoc, append-nil,
}
use mathlib.Core.List.{flatten}
use highp_mmorpg.Frame.{max_frame_size, contents}
use highp_mmorpg.Frame.Contents.{IsValid, length-contents}
use highp_mmorpg.Client.{Client, recv_buffer_size}
use highp_mmorpg.Dispatcher.Wire.{Flatbuffers}
use highp_mmorpg.Dispatcher.Decode.{Decoded, waiting, Decodes-unique}
use highp_mmorpg.Dispatcher.{Dispatcher, is_packet, receive_all}
use highp_mmorpg.Dispatcher.Outcome.{queued, from_slot}
use highp_mmorpg.Dispatcher.Receiving.{Received, receive_refines}
use highp_mmorpg.Dispatcher.Cuts.{
  wire, IsStart, AreSendable, Cut, cut, empty-IsStart, start_small, start_ends,
}

abbrev pub Pieces : List (List ℕ) → Type 0
Pieces [] = Unit {0}
Pieces (piece ∷ pieces) = (length piece ≤ recv_buffer_size) × Pieces pieces

module _ (fb : Flatbuffers) (now : ℕ → ℕ) where
  -- What the calls of `Receive` reach.
  abbrev pub Fed : ℕ → List (List ℕ) → List (List ℕ) → Client → Dispatcher → Type 0
  Fed slot pieces ps c d =
      (c' : Client) × (d' : Dispatcher) × (receive_all fb now slot pieces c d ≡ some (c', d'))
      × (queued d' ≡ queued d ++ from_slot slot ps)
      × (contents c'.frame_buf ≡ [])
      × (c' ≡ record c { frame_buf = c'.frame_buf })

  -- One piece, and then the others.
  receive_piece :
      (slot : ℕ) (piece : List ℕ) (pieces ps : List (List ℕ)) (c : Client) (d : Dispatcher)
      → Received fb now slot piece c d
      → Cut (is_packet fb now) (contents c.frame_buf ++ piece) (flatten pieces) ps
      → ((later : List (List ℕ)) (r : Received fb now slot piece c d)
          → AreSendable (is_packet fb now) later
          → IsStart (contents r.client.frame_buf) later
          → contents r.client.frame_buf ++ flatten pieces ≡ wire later
          → Fed slot pieces later r.client r.dispatcher)
      → Fed slot (piece ∷ pieces) ps c d
  unfolding receive_all flatten
  receive_piece slot piece pieces ps c d r k go_on =
      let same =
        Decodes-unique (is_packet fb now) (contents c.frame_buf ++ piece) r.out
          (record { payloads = k.whole; rest = k.start; verdict = waiting }) r.decodes k.decodes in
      let left : contents r.client.frame_buf ≡ k.start =
        r.assembled.pending ∙ ap (λ (o : Decoded). o.rest) same in
      let (c', d', runs, commands, empty, kept) =
        go_on k.later r k.sendable (subst (λ bs. IsStart bs k.later) (sym left) k.proper)
          (ap (λ bs. bs ++ flatten pieces) left ∙ k.goes_on) in
      let kept₁ = r.assembled.kept (ap (λ (o : Decoded). o.verdict) same) in
      (
        c',
        d',
        rw (r.runs, receive_all) runs,
        commands ∙ (rw (r.assembled.commands, same, k.parts) (simp (map-append, append_assoc))),
        empty,
        kept ∙ ap (λ (b : Client). record b { frame_buf = c'.frame_buf }) kept₁,
      )

  receive_all_start :
      (slot : ℕ) (pieces ps : List (List ℕ)) (c : Client) (d : Dispatcher)
      → IsValid c.frame_buf
      → length c.frame_buf.buf ≡ max_frame_size
      → AreSendable (is_packet fb now) ps
      → Pieces pieces
      → IsStart (contents c.frame_buf) ps
      → contents c.frame_buf ++ flatten pieces ≡ wire ps
      → Fed slot pieces ps c d
  unfolding receive_all flatten
  receive_all_start slot [] ps c d v size ok small s e =
      let (empty, none_left) =
        start_ends (is_packet fb now) (contents c.frame_buf) ps s
          (sym (append-nil (contents c.frame_buf)) ∙ e) in
      (c, d, refl, rw none_left (sym (append-nil (queued d))), empty, refl)
  receive_all_start slot (piece ∷ pieces) ps c d v size ok small s e =
      receive_piece slot piece pieces ps c d
        (receive_refines fb now slot piece c d v (
          omega (
            arith,
            size,
            small.0,
            length-contents c.frame_buf v,
            start_small (is_packet fb now) (contents c.frame_buf) ps ok s,
          )))
        (cut (is_packet fb now) (contents c.frame_buf ++ piece) (flatten pieces) ps ok
          (append_assoc (contents c.frame_buf) piece (flatten pieces) ∙ e))
        (λ later r ok' proper goes_on.
          receive_all_start slot pieces later r.client r.dispatcher r.assembled.valid
            (r.assembled.array ∙ size) ok' small.1 proper goes_on)

  -- Payloads that the client sends with `SendFrame` come out of `Receive` as queued commands of the
  -- connection's slot, all of them, once each and in order, however the stream is cut into pieces,
  -- and nothing stays pending or is closed. The slot starts with an empty 65536-byte buffer, the
  -- payloads are packets of at most 61436 bytes, and no piece is longer than a receive buffer.
  pub receive_all-wire :
      (slot : ℕ) (pieces ps : List (List ℕ)) (c : Client) (d : Dispatcher)
      → IsValid c.frame_buf
      → length c.frame_buf.buf ≡ max_frame_size
      → contents c.frame_buf ≡ []
      → AreSendable (is_packet fb now) ps
      → Pieces pieces
      → flatten pieces ≡ wire ps
      → Fed slot pieces ps c d
  receive_all-wire slot pieces ps c d v size empty ok small e =
      receive_all_start slot pieces ps c d v size ok small
        (subst (λ bs. IsStart bs ps) (sym empty) (empty-IsStart (is_packet fb now) ps ok))
        (ap (λ bs. bs ++ flatten pieces) empty ∙ e)
