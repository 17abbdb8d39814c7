-- ===== src/Dispatcher/Commands.antt =====
-- What is true of every queued command, and what `Receive` keeps.
use highp_mmorpg.Prelude.{
  ℕ, zero, suc, ◌≡◌, refl, subst, ◌⊎◌, inl, inr, Bool, true, false, List, [], ◌∷◌, Option, none,
  some, arith, All, All-append, length, ltb, if◌then◌else◌,
}
use highp_mmorpg.Frame.{max_frame_size, header_size, decode_header, append, contents}
use highp_mmorpg.Client.{Client}
use highp_mmorpg.Frame.Contents.{IsValid}
use highp_mmorpg.Dispatcher.Receiving.{receive_total}
use highp_mmorpg.Dispatcher.Wire.{Flatbuffers}
use highp_mmorpg.Dispatcher.Decode.{frame_size, payload_of}
use highp_mmorpg.Dispatcher.{
  PacketCommand, validation_succeeded, validation_failed, Dispatcher, report, close_client, Result,
  ok, err, parse_packet, push, push_command, take_frame, assemble, receive,
}

-- What holds of the dispatcher when a call has returned.
pub data AtEnd (P : Dispatcher → Type 0) : Option (Client × Dispatcher) → Type 0 where
  stopped : AtEnd P none
  reached : {c : Client} {d : Dispatcher} → P d → AtEnd P (some (c, d))

pub at_end :
    (P : Dispatcher → Type 0) {r : Option (Client × Dispatcher)} {c : Client} {d : Dispatcher}
    → AtEnd P r
    → r ≡ some (c, d)
    → P d
at_end P stopped e = absurd (ground arith)
at_end P (reached {d = d₁} h) e = subst P {x = d₁} (ground arith) h

AtEnd-if :
    (P : Dispatcher → Type 0) (b : Bool) {x y : Option (Client × Dispatcher)}
    → AtEnd P x
    → AtEnd P y
    → AtEnd P (if b then x else y)
AtEnd-if P true h k = h
AtEnd-if P false h k = k

module _ (fb : Flatbuffers) (now : ℕ → ℕ) where
  open fb use {Packet, verify, get_packet, payload_type}

  -- What a predicate on the dispatcher needs to survive `Receive`.
  pub record IsKept (P : Dispatcher → Type 0) : Type 0 where
    pub failing : (d : Dispatcher) → P d → P (report d (validation_failed ∷ []))
    pub succeeding : (d : Dispatcher) → P d → P (report d (validation_succeeded ∷ []))
    pub closing : (c : Client) (d : Dispatcher) → P d → P (close_client c d).1
    pub pushing :
        (slot : ℕ) (raw : List ℕ) (p : Packet) (d : Dispatcher)
        → parse_packet fb now raw ≡ ok p
        → P d
        → P (push_command fb now slot (payload_type p) raw d)

  module _ {P : Dispatcher → Type 0} (k : IsKept P) where
    Parse-cases : (r : Result Packet) → ((p : Packet) × (r ≡ ok p)) ⊎ ((e : _) × (r ≡ err e))
    Parse-cases (ok p) = inl (p, refl)
    Parse-cases (err e) = inr (e, refl)

    take_frame_kept :
        (slot : ℕ) (payload : List ℕ) (n : ℕ) (c : Client) (d : Dispatcher)
        → P d
        → P (take_frame fb now slot payload n c d).2
    unfolding take_frame
    take_frame_kept slot payload n c d h = elim (Parse-cases (parse_packet fb now payload)) [
      | inl (p, e) ↦ rw (e, take_frame) (k.pushing slot payload p _ e (k.succeeding d h))
      | inr (x, e) ↦ rw (e, take_frame) (k.closing c _ (k.failing d h))
    ]

    assemble_kept :
        (slot fuel : ℕ) (c : Client) (d : Dispatcher)
        → P d
        → AtEnd P (assemble fb now slot fuel c d)
    unfolding assemble
    assemble_kept slot zero c d h = stopped
    assemble_kept slot (suc fuel) c d h =
        let buf = contents c.frame_buf in
        let next = take_frame fb now slot (payload_of buf) (frame_size buf) c d in
        let kept = take_frame_kept slot (payload_of buf) (frame_size buf) c d h in
        AtEnd-if P (ltb (length buf) header_size) (reached h) (
          AtEnd-if P (ltb max_frame_size (decode_header buf))
            (reached (k.closing c _ (k.failing d h)))
            (AtEnd-if P (ltb (length buf) (frame_size buf)) (reached h)
              (AtEnd-if P next.0 (assemble_kept slot fuel next.1 next.2 kept) (reached kept))))

    pub receive_kept :
        (slot : ℕ) (bytes : List ℕ) (c : Client) (d : Dispatcher)
        → P d
        → AtEnd P (receive fb now slot bytes c d)
    unfolding receive
    receive_kept slot bytes c d h =
        let c' = record c { frame_buf = (append c.frame_buf bytes).1 } in
        AtEnd-if P (append c.frame_buf bytes).0
          (assemble_kept slot (suc (length (contents c'.frame_buf))) c' d h)
          (reached {c = (close_client c' (report d (validation_failed ∷ []))).0}
            (k.closing c' _ (k.failing d h)))

  -- A command that a tick parses again: its bytes are a packet, of the type that it was queued with.
  abbrev pub IsTyped : PacketCommand → Type 0
  IsTyped cmd =
      (p : Packet) × (verify cmd.bytes ≡ true)
      × (get_packet cmd.bytes ≡ some p)
      × (payload_type p ≡ cmd.payload_type)

  abbrev pub AllTyped : Dispatcher → Type 0
  AllTyped d = All IsTyped d.command_queue.write_queue

  parse_packet-ok :
      (bytes : List ℕ) (p : Packet)
      → parse_packet fb now bytes ≡ ok p
      → (verify bytes ≡ true) × (get_packet bytes ≡ some p)
  unfolding parse_packet
  parse_packet-ok bytes p e = ground arith

  close_client-queue :
      (c : Client) (d : Dispatcher) → (close_client c d).1.command_queue ≡ d.command_queue
  unfolding close_client
  close_client-queue c d = refl

  pub AllTyped-IsKept : IsKept AllTyped
  unfolding push_command push close_client
  AllTyped-IsKept = record {
    failing = λ d h. h;
    succeeding = λ d h. h;
    closing = λ c d h. h;
    pushing = λ slot raw p d e h.
        let (good, got) = parse_packet-ok raw p e in
        All-append IsTyped d.command_queue.write_queue _ h ((p, good, got, refl), tt);
  }

  -- On a valid buffer `Receive` returns. The bytes of every queued command then verify as a packet,
  -- and the command has the payload type of that packet, if this was so of every one before.
  pub receive-AllTyped :
      (slot : ℕ) (bytes : List ℕ) (c : Client) (d : Dispatcher)
      → IsValid c.frame_buf
      → AllTyped d
      → (c' : Client) × (d' : Dispatcher) × (receive fb now slot bytes c d ≡ some (c', d'))
        × AllTyped d'
  receive-AllTyped slot bytes c d v h =
      let (c', d', e) = receive_total fb now slot bytes c d v in
      (c', d', e, at_end AllTyped (receive_kept AllTyped-IsKept slot bytes c d h) e)
