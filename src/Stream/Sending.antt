-- ===== src/Stream/Sending.antt =====
-- What `SendFrame` puts on the wire.
use highp_mmorpg.Prelude.{
  ℕ, zero, suc, ◌+◌, ◌%◌, ◌^◌, ◌≤◌, ◌<◌, ◌≡◌, refl, sym, ap, subst, ◌∙◌, ◌⊎◌, inl, inr, List, [],
  ◌∷◌, ◌++◌, Option, some, arith, lt→ltb, take-length_append, ◌==◌, Bool-cases, length, take, drop,
  replicate, append-nil, append_assoc, length-append, length-take, length-drop, length-replicate,
  drop_all, take-append-drop, take-take, take-append-take-drop,
}
use highp_mmorpg.NetworkError.{Result, ok, err, wsa_send_failed}
use highp_mmorpg.Frame.{header_size, htonl, encode_header, copy_at}
use highp_mmorpg.Frame.Header.{length-encode_header}
use highp_mmorpg.Stream.Sockets.{Winsock, Sent, sent, Delivers}
use highp_mmorpg.Stream.{build_frame, send_rest, send_all, chunk_size}

htonl_pos : (n : ℕ) → 0 < n → n < 2 ^ 32 → 0 < htonl (n % 2 ^ 32)
unfolding htonl
htonl_pos n p h = omega arith

htonl_zero : htonl (0 % 2 ^ 32) ≡ 0
unfolding htonl
htonl_zero = refl

pub headed_lem :
    (payload : List ℕ)
    → copy_at (replicate (header_size + length payload) 0) 0 (encode_header (length payload))
      ≡ encode_header (length payload) ++ drop 4 (replicate (header_size + length payload) 0)
headed_lem payload = rw (length-encode_header (length payload))

-- A copy to the end of the array replaces what stands there.
pub copy_at_end :
    (front back bytes : List ℕ)
    → length back ≡ length bytes
    → copy_at (front ++ back) (length front) bytes ≡ front ++ bytes
copy_at_end front back bytes h = rw (take-length_append front back) (
    rw
      (drop_all (length front + length bytes) (front ++ back)
        (omega (arith, length-append front back)))
      (rw append-nil))

-- For a payload below 2 ^ 32 bytes the vector holds the header and behind it the payload, nothing
-- else: `[length:4][payload:N]`.
pub build_frame_lem :
    (payload : List ℕ)
    → length payload < 2 ^ 32
    → build_frame payload ≡ encode_header (length payload) ++ payload
unfolding build_frame
build_frame_lem [] h =
    rw htonl_zero
      (headed_lem [] ∙ ap (◌++◌ (encode_header 0)) (drop_all 4 (replicate 4 0) (omega arith)))
build_frame_lem (b ∷ bs) h =
    let header = encode_header (length (b ∷ bs)) in
    let blank = replicate {A = ℕ} (length header + length (b ∷ bs)) 0 in
    rw (lt→ltb _ _ (htonl_pos (length (b ∷ bs)) (omega arith) h)) (
      rw headed_lem (
        rw (← length-encode_header (length (b ∷ bs))) (
          copy_at_end header (drop (length header) blank) (b ∷ bs) (
            omega (
              arith,
              length-drop (length header) blank,
              length-replicate {A = ℕ} (length header + length (b ∷ bs)) 0,
            )))))

module _ (ws : Winsock) (law : Delivers ws) (socket : ℕ) where
  open ws use {State}
  open law use {delivered, send_adds, failed_adds}

  -- How a call that sends ends: all of the bytes are delivered, or an error is reported and a part
  -- of them from the front is.
  pub data Sends (bytes : List ℕ) (s : State) : Option (Result (Unit {0}) × State) → Type 0 where
    all_sent : {s' : State} → delivered s' ≡ delivered s ++ bytes → Sends bytes s (some (ok tt, s'))
    part_sent :
        {s' : State} (n : ℕ)
        → n < length bytes
        → delivered s' ≡ delivered s ++ take n bytes
        → Sends bytes s (some (err wsa_send_failed, s'))

  -- A first part that is delivered, and then the rest.
  Sends-drop :
      (n : ℕ) (bytes : List ℕ) (s s' : State) {r : Option (Result (Unit {0}) × State)}
      → n ≤ length bytes
      → delivered s' ≡ delivered s ++ take n bytes
      → Sends (drop n bytes) s' r
      → Sends bytes s r
  Sends-drop n bytes s s' h e (all_sent d) = all_sent (
      d
      ∙ (rw (e, append_assoc (delivered s) (take n bytes) (drop n bytes))
          (ap (◌++◌ (delivered s)) (take-append-drop n bytes))))
  Sends-drop n bytes s s' h e (part_sent m k d) =
      part_sent (n + m) (omega (arith, k, length-drop n bytes)) (
        d
        ∙ (rw (e, append_assoc (delivered s) (take n bytes) (take m (drop n bytes)))
            (ap (◌++◌ (delivered s)) (take-append-take-drop n m bytes))))

  sent_front :
      (k n : ℕ) (bytes : List ℕ) (s : State)
      → (ws.send s (take k bytes)).0 ≡ sent n
      → (n ≤ length bytes) × (delivered (ws.send s (take k bytes)).1 ≡ delivered s ++ take n bytes)
  sent_front k n bytes s e =
      let (few, adds) = send_adds s (take k bytes) n e in
      (
        omega (arith, few, length-take k bytes),
        adds
            ∙ ap (◌++◌ (delivered s))
                (take-take n k bytes (omega (arith, few, length-take k bytes))),
      )

  Sent-cases : (a : Sent) → (a ≡ Sent.failed) ⊎ ((n : ℕ) × (a ≡ sent n))
  Sent-cases Sent.failed = inl refl
  Sent-cases (sent n) = inr (n, refl)

  send_rest-Sends :
      (fuel : ℕ) (bytes : List ℕ) (s : State)
      → length bytes < fuel
      → Sends bytes s (send_rest ws fuel bytes s)
  unfolding send_rest
  send_rest-Sends zero bytes s h = absurd (omega arith)
  send_rest-Sends (suc fuel) [] s h = all_sent (sym (append-nil (delivered s)))
  send_rest-Sends (suc fuel) (b ∷ bs) s h =
      let size = chunk_size (length (b ∷ bs)) in
      let chunk = take size (b ∷ bs) in
      rw (lt→ltb 0 (suc (length bs)) (omega arith)) (elim (Sent-cases (ws.send s chunk).0) [
        | inl e ↦
            rw e
              (part_sent 0 (omega arith) (failed_adds s chunk e ∙ sym (append-nil (delivered s))))
        | inr (n, e) ↦ rw e (elim (Bool-cases (n == 0)) [
          | inl none_taken ↦ rw none_taken (
              part_sent 0 (omega arith) (
                subst (λ k. delivered (ws.send s chunk).1 ≡ delivered s ++ take k (b ∷ bs)) {y = 0}
                  (ground arith) (sent_front size n (b ∷ bs) s e).1))
          | inr some_taken ↦ rw some_taken (
              let (few, adds) = sent_front size n (b ∷ bs) s e in
              Sends-drop n (b ∷ bs) s (ws.send s chunk).1 few adds (
                send_rest-Sends fuel (drop n (b ∷ bs)) (ws.send s chunk).1
                  (ground (arith, length-drop n (b ∷ bs)))))
        ])
      ])

  -- `SendAll` returns whatever the socket answers. On success every byte is delivered, in order; on
  -- an error those that are make up a proper part from the front.
  pub send_all-Sends :
      (bytes : List ℕ) (s : State) → Sends bytes s (send_all ws (some socket) bytes s)
  unfolding send_all
  send_all-Sends bytes s = send_rest-Sends (suc (length bytes)) bytes s (omega arith)
