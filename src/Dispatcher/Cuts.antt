-- ===== src/Dispatcher/Cuts.antt =====
-- A stream of frames that `SendFrame` builds, cut somewhere.
use highp_mmorpg.Prelude.{
  ℕ, ◌+◌, ◌-◌, ◌≤◌, ◌<◌, ◌≡◌, refl, sym, ap, subst, ◌∙◌, Bool, true, List, [], ◌∷◌, ◌++◌, arith,
  length, take, drop, dec_lt, length-append, append_assoc, append-split, drop-append_eq,
  take-append_eq,
}
use highp_mmorpg.Frame.{max_frame_size, header_size, encode_header, decode_header}
use highp_mmorpg.Frame.Header.{decode-encode_header, length-encode_header, decode_header-append}
use highp_mmorpg.Client.{recv_buffer_size}
use highp_mmorpg.Stream.{build_frame}
use highp_mmorpg.Stream.Sending.{build_frame_lem}
use highp_mmorpg.Dispatcher.Decode.{
  Decodes, HasFrame, waiting, short, partial, frame, frame_size, payload_of,
}

-- Longer payloads may not fit the buffer beside a whole `recv`.
abbrev pub longest_payload : ℕ
longest_payload = max_frame_size - (header_size + recv_buffer_size)

-- The stream of the frames, one after another.
abbrev pub wire : List (List ℕ) → List ℕ
wire [] = []
wire (p ∷ ps) = build_frame p ++ wire ps

pub length-build_frame :
    (p : List ℕ) → length p ≤ longest_payload → length (build_frame p) ≡ header_size + length p
length-build_frame p h = omega (
  arith,
  ap length (build_frame_lem p (omega arith)),
  length-encode_header (length p),
  length-append (encode_header (length p)) p,
)

-- The start of the first of the frames that are still to come.
abbrev pub IsStart : List ℕ → List (List ℕ) → Type 0
IsStart start [] = start ≡ []
IsStart start (p ∷ ps) = length start < length (build_frame p)

-- A stream that begins with the frame of a payload.
module _ (p zs : List ℕ) (small : length p ≤ longest_payload) where
  abbrev pub stream : List ℕ
  stream = build_frame p ++ zs

  pub stream_lem : stream ≡ encode_header (length p) ++ (p ++ zs)
  stream_lem = rw (build_frame_lem p (omega arith)) (append_assoc (encode_header (length p)) p zs)

  pub decode_header-stream : decode_header stream ≡ length p
  decode_header-stream =
      ap decode_header stream_lem ∙ (decode-encode_header (length p) (p ++ zs) (omega arith)).0

  pub length-stream : length stream ≡ header_size + length p + length zs
  length-stream = omega (
    arith,
    ap length stream_lem,
    length-encode_header (length p),
    length-append (encode_header (length p)) (p ++ zs),
    length-append p zs,
  )

  pub HasFrame-stream : HasFrame stream
  HasFrame-stream = record {
    header = omega (arith, length-stream);
    allowed = omega (arith, decode_header-stream);
    whole = omega (arith, decode_header-stream, length-stream);
  }

  pub header-off : drop header_size stream ≡ p ++ zs
  header-off =
      ap (drop header_size) stream_lem
      ∙ drop-append_eq header_size (encode_header (length p)) (p ++ zs)
          (sym (length-encode_header (length p)))

  pub payload_of-stream : payload_of stream ≡ p
  payload_of-stream =
      ap (take (decode_header stream)) header-off
      ∙ take-append_eq (decode_header stream) p zs decode_header-stream

  pub rest-stream : drop (frame_size stream) stream ≡ zs
  rest-stream =
      drop-append_eq (frame_size stream) (build_frame p) zs
        (omega (arith, decode_header-stream, length-stream, length-append (build_frame p) zs))

module _ (valid : List ℕ → Bool) where
  -- The payloads are packets, and short enough.
  abbrev pub AreSendable : List (List ℕ) → Type 0
  AreSendable [] = Unit {0}
  AreSendable (p ∷ ps) = (length p ≤ longest_payload) × (valid p ≡ true) × AreSendable ps

  -- What the front part `read` of a stream decodes to: whole frames, and the start of one more.
  pub record Cut (read unread : List ℕ) (ps : List (List ℕ)) : Type 0 where
    pub whole : List (List ℕ)
    pub later : List (List ℕ)
    pub start : List ℕ
    pub parts : ps ≡ whole ++ later
    pub decodes : Decodes valid read (record { payloads = whole; rest = start; verdict = waiting })
    pub goes_on : start ++ unread ≡ wire later
    pub proper : IsStart start later
    pub sendable : AreSendable later

  pub start_waits :
      (p : List ℕ) (ps : List (List ℕ)) (read unread : List ℕ)
      → AreSendable (p ∷ ps)
      → length read < length (build_frame p)
      → read ++ unread ≡ wire (p ∷ ps)
      → Decodes valid read (record { payloads = []; rest = read; verdict = waiting })
  start_waits p ps read unread ok h e = elim (dec_lt (length read) header_size) [
    | yes few ↦ short few refl
    | no enough ↦
        let n : decode_header read ≡ length p =
          sym (decode_header-append read unread (omega arith))
          ∙ (ap decode_header e ∙ decode_header-stream p (wire ps) ok.0) in
        partial (omega arith) (omega (arith, n, ok.0))
          (omega (arith, n, h, length-build_frame p ok.0)) refl
  ]

  -- A whole frame at the front, before the rest is cut.
  pub Cut-frame :
      (p : List ℕ) (ps : List (List ℕ)) (read unread : List ℕ)
      → AreSendable (p ∷ ps)
      → read ≡ build_frame p ++ drop (length (build_frame p)) read
      → Cut (drop (length (build_frame p)) read) unread ps
      → Cut read unread (p ∷ ps)
  Cut-frame p ps read unread ok front c =
      let zs = drop (length (build_frame p)) read in
      record {
        whole = p ∷ c.whole;
        later = c.later;
        start = c.start;
        parts = ap (◌∷◌ p) c.parts;
        decodes =
            subst
              (λ bs.
                Decodes valid bs
                  (record { payloads = p ∷ c.whole; rest = c.start; verdict = waiting }))
              (sym front)
              (frame {out' = record { payloads = c.whole; rest = c.start; verdict = waiting }}
                (HasFrame-stream p zs ok.0) (rw (payload_of-stream p zs ok.0) ok.1)
                (rw (rest-stream p zs ok.0) c.decodes) (rw (payload_of-stream p zs ok.0)));
        goes_on = c.goes_on;
        proper = c.proper;
        sendable = c.sendable;
      }

  pub cut :
      (read unread : List ℕ) (ps : List (List ℕ))
      → AreSendable ps
      → read ++ unread ≡ wire ps
      → Cut read unread ps
  cut [] unread [] ok e = record {
    whole = [];
    later = [];
    start = [];
    parts = refl;
    decodes = short (omega arith) refl;
    goes_on = e;
    proper = refl;
    sendable = tt;
  }
  cut (b ∷ read) unread [] ok e = absurd (cc)
  cut read unread (p ∷ ps) ok e = elim (dec_lt (length read) (length (build_frame p))) [
    | yes h ↦ record {
      whole = [];
      later = p ∷ ps;
      start = read;
      parts = refl;
      decodes = start_waits p ps read unread ok h e;
      goes_on = e;
      proper = h;
      sendable = ok;
    }
    | no h ↦
        let (front, back) = append-split read unread (build_frame p) (wire ps) e (omega arith) in
        Cut-frame p ps read unread ok front
          (cut (drop (length (build_frame p)) read) unread ps ok.2 (sym back))
  ]

  pub empty-IsStart : (ps : List (List ℕ)) → AreSendable ps → IsStart [] ps
  empty-IsStart [] ok = refl
  empty-IsStart (p ∷ ps) ok = omega (arith, length-build_frame p ok.0)

  pub start_small :
      (start : List ℕ) (ps : List (List ℕ))
      → AreSendable ps
      → IsStart start ps
      → length start < header_size + longest_payload
  start_small start [] ok s = omega (arith, ap length s)
  start_small start (p ∷ ps) ok s = omega (arith, s, ok.0, length-build_frame p ok.0)

  -- Nothing but a start is pending, and nothing is still to come: then nothing is pending.
  pub start_ends :
      (start : List ℕ) (ps : List (List ℕ))
      → IsStart start ps
      → start ≡ wire ps
      → (start ≡ []) × (ps ≡ [])
  start_ends start [] s e = (s, refl)
  start_ends start (p ∷ ps) s e =
      absurd (omega (arith, s, ap length e, length-append (build_frame p) (wire ps)))
