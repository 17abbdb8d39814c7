-- ===== src/Dispatcher/Assembly.antt =====
-- The loop of `PacketDispatcher::Receive` against the decoder.
use highp_mmorpg.Prelude.{
  ℕ, zero, suc, ◌<◌, ◌≡◌, refl, ap, subst, ◌∙◌, ◌⊎◌, inl, inr, Bool, true, false, List, [], ◌∷◌,
  some, map-append, arith, length, drop, Bool-cases, Option-cases, ltb, if◌then◌else◌, append_assoc,
  length-drop,
}
use highp_mmorpg.Frame.{max_frame_size, header_size, decode_header, contents, consume}
use highp_mmorpg.Frame.Contents.{IsValid, consume_refines}
use highp_mmorpg.Client.{Client}
use highp_mmorpg.Dispatcher.Wire.{Flatbuffers}
use highp_mmorpg.Dispatcher.Decode.{
  Decodes, Decoded, HasFrame, waiting, refused, short, partial, oversized, malformed, frame,
  frame_size, payload_of,
}
use highp_mmorpg.Dispatcher.{
  Dispatcher, ok, err, close_client, parse_packet, is_packet, push, push_command, take_frame,
  assemble, validation_failed, validation_succeeded, report, fb_failed_verify, fb_get_packet,
}
use highp_mmorpg.Dispatcher.Outcome.{Assembled, close_client_lem, stop-Assembled, closed-Assembled}

module _ (fb : Flatbuffers) (now : ℕ → ℕ) where
  open fb use {Packet, payload_type}

  -- What the loop reaches.
  pub record Reached (slot fuel : ℕ) (c : Client) (d : Dispatcher) : Type 0 where
    pub out : Decoded
    pub client : Client
    pub dispatcher : Dispatcher
    pub runs : assemble fb now slot fuel c d ≡ some (client, dispatcher)
    pub decodes : Decodes (is_packet fb now) (contents c.frame_buf) out
    pub assembled : Assembled slot c d out client dispatcher

  parse-cases :
      (bytes : List ℕ)
      → ((p : Packet) × (parse_packet fb now bytes ≡ ok p) × (is_packet fb now bytes ≡ true))
        ⊎ ((parse_packet fb now bytes ≡ err fb_failed_verify) × (is_packet fb now bytes ≡ false))
        ⊎ ((parse_packet fb now bytes ≡ err fb_get_packet) × (is_packet fb now bytes ≡ false))
  unfolding parse_packet
  parse-cases bytes = elim (Bool-cases (fb.verify bytes)) [
    | inl good ↦ elim (Option-cases (fb.get_packet bytes)) [
      | inl e ↦ ground arith
      | inr (p, e) ↦ inl (p, ground arith, ground arith)
    ]
    | inr bad ↦ ground arith
  ]

  abbrev IsRefused : List ℕ → Type 0
  IsRefused bytes =
      ((parse_packet fb now bytes ≡ err fb_failed_verify) × (is_packet fb now bytes ≡ false))
      ⊎ ((parse_packet fb now bytes ≡ err fb_get_packet) × (is_packet fb now bytes ≡ false))

  refused_invalid : (bytes : List ℕ) → IsRefused bytes → is_packet fb now bytes ≡ false
  refused_invalid bytes (inl (_, e)) = e
  refused_invalid bytes (inr (_, e)) = e

  take_frame_refused :
      (slot n : ℕ) (payload : List ℕ) (c : Client) (d : Dispatcher)
      → IsRefused payload
      → let (c', d') = close_client c (report d (validation_failed ∷ [])) in
        take_frame fb now slot payload n c d
        ≡ (false, record c' { frame_buf = consume c'.frame_buf n }, d')
  unfolding take_frame
  take_frame_refused slot n payload c d (inl (e, _)) = rw (e, take_frame)
  take_frame_refused slot n payload c d (inr (e, _)) = rw (e, take_frame)

  take_frame_taken :
      (slot n : ℕ) (payload : List ℕ) (c : Client) (d : Dispatcher) (p : Packet)
      → parse_packet fb now payload ≡ ok p
      → take_frame fb now slot payload n c d ≡ (
        true,
        record c { frame_buf = consume c.frame_buf n },
        push_command fb now slot (payload_type p) payload (report d (validation_succeeded ∷ [])),
      )
  unfolding take_frame
  take_frame_taken slot n payload c d p e = rw (e, take_frame)

  assemble_frame :
      (slot fuel : ℕ) (c : Client) (d : Dispatcher)
      → HasFrame (contents c.frame_buf)
      → (more : Bool) (c' : Client) (d' : Dispatcher)
      → take_frame fb now slot
          (payload_of (contents c.frame_buf))
          (frame_size (contents c.frame_buf))
          c
          d
        ≡ (more, c', d')
      → assemble fb now slot (suc fuel) c d
        ≡ (if more then assemble fb now slot fuel c' d' else some (c', d'))
  unfolding assemble
  assemble_frame slot fuel c d has more c' d' e = rw e (ground arith)

  -- A frame whose payload is no packet ends the loop and the connection.
  malformed-Reached :
      (slot fuel : ℕ) (c : Client) (d : Dispatcher)
      → IsValid c.frame_buf
      → HasFrame (contents c.frame_buf)
      → IsRefused (payload_of (contents c.frame_buf))
      → Reached slot (suc fuel) c d
  unfolding assemble
  malformed-Reached slot fuel c d v has bad =
      let n = frame_size (contents c.frame_buf) in
      let (c', d') = close_client c (report d (validation_failed ∷ [])) in
      let (gone, down, buf, queue) = close_client_lem c (report d (validation_failed ∷ [])) in
      let same = closed-Assembled slot c d (validation_failed ∷ []) v in
      let (fits, array, left) = consume_refines c'.frame_buf n same.valid in
      record {
        out = record { payloads = []; rest = drop n (contents c.frame_buf); verdict = refused };
        client = record c' { frame_buf = consume c'.frame_buf n };
        dispatcher = d';
        runs =
            assemble_frame slot fuel c d has false _ _
              (take_frame_refused slot n (payload_of (contents c.frame_buf)) c d bad);
        decodes = malformed has (refused_invalid _ bad) refl;
        assembled = record {
          valid = fits;
          array = array ∙ same.array;
          pending = left ∙ ap (drop n) same.pending;
          commands = same.commands;
          kept = λ e. absurd (ground arith);
          closed = λ _. (gone, down);
        };
      }

  -- A frame whose payload is a packet is queued and consumed, and the loop goes on.
  frame-Reached :
      (slot fuel : ℕ) (c : Client) (d : Dispatcher) (p : Packet)
      → IsValid c.frame_buf
      → HasFrame (contents c.frame_buf)
      → (e : parse_packet fb now (payload_of (contents c.frame_buf)) ≡ ok p)
      → is_packet fb now (payload_of (contents c.frame_buf)) ≡ true
      → Reached slot fuel
          (record c { frame_buf = consume c.frame_buf (frame_size (contents c.frame_buf)) })
          (push_command fb now slot
            (payload_type p)
            (payload_of (contents c.frame_buf))
            (report d (validation_succeeded ∷ [])))
      → Reached slot (suc fuel) c d
  unfolding assemble push_command push
  frame-Reached slot fuel c d p v has e good r =
      let n = frame_size (contents c.frame_buf) in
      let (fits, array, left) = consume_refines c.frame_buf n v in
      let payload = payload_of (contents c.frame_buf) in
      record {
        out = record r.out { payloads = payload ∷ r.out.payloads };
        client = r.client;
        dispatcher = r.dispatcher;
        runs =
            assemble_frame slot fuel c d has true _ _ (take_frame_taken slot n payload c d p e)
            ∙ r.runs;
        decodes =
            frame has good (subst (λ bs. Decodes (is_packet fb now) bs r.out) left r.decodes) refl;
        assembled = record {
          valid = r.assembled.valid;
          array = r.assembled.array ∙ array;
          pending = r.assembled.pending;
          commands = simp (r.assembled.commands, map-append, append_assoc);
          kept = λ w. r.assembled.kept w;
          closed = r.assembled.closed;
        };
      }

  -- The loop ends, given a round for each pending byte and one more, and does what the decoder says.
  pub assemble_refines :
      (slot fuel : ℕ) (c : Client) (d : Dispatcher)
      → IsValid c.frame_buf
      → length (contents c.frame_buf) < fuel
      → Reached slot fuel c d
  unfolding assemble
  assemble_refines slot zero c d v h = absurd (omega arith)
  assemble_refines slot (suc fuel) c d v h =
      elim (Bool-cases (ltb (length (contents c.frame_buf)) header_size)) [
        | inl is_short ↦ record {
          out = record { payloads = []; rest = contents c.frame_buf; verdict = waiting };
          client = c;
          dispatcher = d;
          runs = rw is_short;
          decodes = short (ground arith) refl;
          assembled = stop-Assembled slot c d v;
        }
        | inr long ↦ elim (Bool-cases (ltb max_frame_size (decode_header (contents c.frame_buf)))) [
          | inl big ↦ record {
            out = record { payloads = []; rest = contents c.frame_buf; verdict = refused };
            client = (close_client c (report d (validation_failed ∷ []))).0;
            dispatcher = (close_client c (report d (validation_failed ∷ []))).1;
            runs = rw (long, big);
            decodes = oversized (ground arith) (ground arith) refl;
            assembled = closed-Assembled slot c d (validation_failed ∷ []) v;
          }
          | inr allowed ↦
              elim (Bool-cases
                (ltb (length (contents c.frame_buf)) (frame_size (contents c.frame_buf)))) [
                  | inl is_part ↦ record {
                    out = record { payloads = []; rest = contents c.frame_buf; verdict = waiting };
                    client = c;
                    dispatcher = d;
                    runs = rw (long, allowed, is_part);
                    decodes = partial (ground arith) (ground arith) (ground arith) refl;
                    assembled = stop-Assembled slot c d v;
                  }
                  | inr whole ↦
                      let n = frame_size (contents c.frame_buf) in
                      let payload = payload_of (contents c.frame_buf) in
                      let has : HasFrame (contents c.frame_buf) = record {
                        header = ground arith;
                        allowed = ground arith;
                        whole = ground arith;
                      } in
                      elim (parse-cases payload) [
                        | inl (p, e, good) ↦ frame-Reached slot fuel c d p v has e good (
                            assemble_refines slot fuel _ _ (consume_refines c.frame_buf n v).0 (
                              omega (
                                arith,
                                h,
                                has.whole,
                                has.header,
                                ap length (consume_refines c.frame_buf n v).2,
                                length-drop n (contents c.frame_buf),
                              )))
                        | inr bad ↦ malformed-Reached slot fuel c d v has bad
                      ]
                ]
        ]
      ]
