-- ===== src/Dispatcher/Decode.antt =====
-- The byte stream that `PacketDispatcher::Receive` assembles frames from, as a relation: which
-- payloads a run of bytes holds, what is left of it, and whether the stream is still sound.
use highp_mmorpg.Prelude.{
  ℕ, ◌+◌, ◌≤◌, ◌<◌, ◌≡◌, sym, subst, ◌∙◌, Bool, true, false, List, [], ◌∷◌, ◌++◌, arith, length,
  take, drop, length-append, drop-append_le, take-append_le, length-drop,
}
use highp_mmorpg.Frame.{max_frame_size, header_size, decode_header}
use highp_mmorpg.Frame.Header.{decode_header-append}

-- Either the stream waits for more bytes, or it is refused for good.
pub data Verdict : Type 0 where
  waiting refused : Verdict

pub record Decoded : Type 0 where
  pub payloads : List (List ℕ)
  pub rest : List ℕ
  pub verdict : Verdict

abbrev pub frame_size : List ℕ → ℕ
frame_size bs = header_size + decode_header bs

abbrev pub payload_of : List ℕ → List ℕ
payload_of bs = take (decode_header bs) (drop header_size bs)

-- A whole frame of an allowed length stands at the front.
pub record HasFrame (bs : List ℕ) : Type 0 where
  pub header : header_size ≤ length bs
  pub allowed : decode_header bs ≤ max_frame_size
  pub whole : frame_size bs ≤ length bs

module _ (xs ys : List ℕ) (h : HasFrame xs) where
  header-append : decode_header (xs ++ ys) ≡ decode_header xs
  header-append = decode_header-append xs ys h.header

  HasFrame-append : HasFrame (xs ++ ys)
  HasFrame-append = record {
    header = omega (arith, h.header, length-append xs ys);
    allowed = omega (arith, h.allowed, header-append);
    whole = omega (arith, h.whole, header-append, length-append xs ys);
  }

  payload_of-append : payload_of (xs ++ ys) ≡ payload_of xs
  payload_of-append =
      rw (header-append, drop-append_le header_size xs ys h.header)
        (take-append_le (decode_header xs) (drop header_size xs) ys
          (omega (arith, h.whole, length-drop header_size xs)))

  rest-append : drop (frame_size (xs ++ ys)) (xs ++ ys) ≡ drop (frame_size xs) xs ++ ys
  rest-append = rw header-append (drop-append_le (frame_size xs) xs ys h.whole)

-- `valid` says which payloads are packets.
module _ (valid : List ℕ → Bool) where
  pub data Decodes : List ℕ → Decoded → Type 0 where
    short :
        {bs : List ℕ} {out : Decoded}
        → length bs < header_size
        → out ≡ record { payloads = []; rest = bs; verdict = waiting }
        → Decodes bs out
    partial :
        {bs : List ℕ} {out : Decoded}
        → header_size ≤ length bs
        → decode_header bs ≤ max_frame_size
        → length bs < frame_size bs
        → out ≡ record { payloads = []; rest = bs; verdict = waiting }
        → Decodes bs out
    oversized :
        {bs : List ℕ} {out : Decoded}
        → header_size ≤ length bs
        → max_frame_size < decode_header bs
        → out ≡ record { payloads = []; rest = bs; verdict = refused }
        → Decodes bs out
    malformed :
        {bs : List ℕ} {out : Decoded}
        → HasFrame bs
        → valid (payload_of bs) ≡ false
        → out ≡ record { payloads = []; rest = drop (frame_size bs) bs; verdict = refused }
        → Decodes bs out
    frame :
        {bs : List ℕ} {out out' : Decoded}
        → HasFrame bs
        → valid (payload_of bs) ≡ true
        → Decodes (drop (frame_size bs) bs) out'
        → out ≡ record out' { payloads = payload_of bs ∷ out'.payloads }
        → Decodes bs out

  stop_append :
      (xs ys : List ℕ) (out out' : Decoded)
      → out ≡ record { payloads = []; rest = xs; verdict = waiting }
      → Decodes (out.rest ++ ys) out'
      → Decodes (xs ++ ys) (record out' { payloads = out.payloads ++ out'.payloads })
  stop_append xs ys out out' eq e =
      subst
        (λ o.
          Decodes (o.rest ++ ys) out'
          → Decodes (xs ++ ys) (record out' { payloads = o.payloads ++ out'.payloads }))
        (sym eq) (λ d. d) e

  -- Bytes that arrive later continue the decoding where it stopped.
  pub Decodes-append :
      (xs ys : List ℕ) (out out' : Decoded)
      → Decodes xs out
      → out.verdict ≡ waiting
      → Decodes (out.rest ++ ys) out'
      → Decodes (xs ++ ys) (record out' { payloads = out.payloads ++ out'.payloads })
  Decodes-append xs ys out out' (short a eq) w e = stop_append xs ys out out' eq e
  Decodes-append xs ys out out' (partial a b c eq) w e = stop_append xs ys out out' eq e
  Decodes-append xs ys out out' (oversized a b eq) w e = absurd (ground arith)
  Decodes-append xs ys out out' (malformed h n eq) w e = absurd (ground arith)
  Decodes-append xs ys out out' (frame {out' = o} h n d eq) w e =
      frame {out' = record out' { payloads = o.payloads ++ out'.payloads }}
        (HasFrame-append xs ys h) (rw (payload_of-append xs ys h) n)
        (rw (rest-append xs ys h) (
          Decodes-append (drop (frame_size xs) xs) ys o out' d (ground arith)
            (subst (λ r. Decodes (r ++ ys) out') (ground arith) e)))
        (ground (arith, payload_of-append xs ys h))

  -- The bytes determine what is decoded.
  pub Decodes-unique :
      (bs : List ℕ) (out out' : Decoded) → Decodes bs out → Decodes bs out' → out ≡ out'
  Decodes-unique bs out out' (short a eq) (short a' eq') = eq ∙ sym eq'
  Decodes-unique bs out out' (short a eq) (partial a' b' c' eq') = absurd (ground arith)
  Decodes-unique bs out out' (short a eq) (oversized a' b' eq') = absurd (ground arith)
  Decodes-unique bs out out' (short a eq) (malformed h' n' eq') = absurd (ground arith)
  Decodes-unique bs out out' (short a eq) (frame h' n' d' eq') = absurd (ground arith)
  Decodes-unique bs out out' (partial a b c eq) (short a' eq') = absurd (ground arith)
  Decodes-unique bs out out' (partial a b c eq) (partial a' b' c' eq') = eq ∙ sym eq'
  Decodes-unique bs out out' (partial a b c eq) (oversized a' b' eq') = absurd (ground arith)
  Decodes-unique bs out out' (partial a b c eq) (malformed h' n' eq') = absurd (ground arith)
  Decodes-unique bs out out' (partial a b c eq) (frame h' n' d' eq') = absurd (ground arith)
  Decodes-unique bs out out' (oversized a b eq) (short a' eq') = absurd (ground arith)
  Decodes-unique bs out out' (oversized a b eq) (partial a' b' c' eq') = absurd (ground arith)
  Decodes-unique bs out out' (oversized a b eq) (oversized a' b' eq') = eq ∙ sym eq'
  Decodes-unique bs out out' (oversized a b eq) (malformed h' n' eq') = absurd (ground arith)
  Decodes-unique bs out out' (oversized a b eq) (frame h' n' d' eq') = absurd (ground arith)
  Decodes-unique bs out out' (malformed h n eq) (short a' eq') = absurd (ground arith)
  Decodes-unique bs out out' (malformed h n eq) (partial a' b' c' eq') = absurd (ground arith)
  Decodes-unique bs out out' (malformed h n eq) (oversized a' b' eq') = absurd (ground arith)
  Decodes-unique bs out out' (malformed h n eq) (malformed h' n' eq') = eq ∙ sym eq'
  Decodes-unique bs out out' (malformed h n eq) (frame h' n' d' eq') = absurd (ground arith)
  Decodes-unique bs out out' (frame h n d eq) (short a' eq') = absurd (ground arith)
  Decodes-unique bs out out' (frame h n d eq) (partial a' b' c' eq') = absurd (ground arith)
  Decodes-unique bs out out' (frame h n d eq) (oversized a' b' eq') = absurd (ground arith)
  Decodes-unique bs out out' (frame h n d eq) (malformed h' n' eq') = absurd (ground arith)
  Decodes-unique bs out out' (frame {out' = o} h n d eq) (frame {out' = o'} h' n' d' eq') =
      ground (arith, Decodes-unique (drop (frame_size bs) bs) o o' d d')
