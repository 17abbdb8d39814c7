-- ===== src/Stream/Receiving.antt =====
-- What `RecvFrame` takes off the wire.
use highp_mmorpg.Prelude.{
  ℕ, zero, suc, ◌+◌, ◌-◌, ◌^◌, ◌≤◌, ◌<◌, ◌≡◌, ◌≢◌, refl, sym, ap, subst, ◌∙◌, ◌⊎◌, inl, inr, false,
  List, [], ◌∷◌, ◌++◌, Option, none, some, arith, lt→ltb, ltb, ◌==◌, ◌||◌, Bool-cases, Option-cases,
  length, drop, append-nil, append_assoc, length-append, length-drop, append-split,
}
use highp_mmorpg.NetworkError.{NetworkError, Result, ok, err, wsa_no_buffer_space}
use highp_mmorpg.Frame.{header_size, max_frame_size, encode_header, decode_header}
use highp_mmorpg.Frame.Header.{length-encode_header, decode-encode_header}
use highp_mmorpg.Stream.Sockets.{Winsock, received, Arrives}
use highp_mmorpg.Stream.{
  build_frame, recv_some, recv_loop, recv_exact, recv_payload, recv_frame, recv_answer,
}
use highp_mmorpg.Stream.Sending.{build_frame_lem}

answer-cases :
    (r : Result (List ℕ))
    → ((e : NetworkError) × (r ≡ err e))
      ⊎ (r ≡ ok [])
      ⊎ ((b : ℕ) × (bs : List ℕ) × (r ≡ ok (b ∷ bs)))
answer-cases (err e) = inl (e, refl)
answer-cases (ok []) = inr (inl refl)
answer-cases (ok (b ∷ bs)) = inr (inr (b, bs, refl))

module _ (ws : Winsock) (handle : Option ℕ) where
  open ws use {State}

  -- How a round of the loop goes on.
  recv_loop_more :
      (fuel size : ℕ) (got : List ℕ) (b : ℕ) (bs : List ℕ) (s : State)
      → length got < size
      → (recv_some ws handle (size - length got) s).0 ≡ ok (b ∷ bs)
      → recv_loop ws handle (suc fuel) size got s
        ≡ recv_loop ws handle fuel size
            (got ++ (b ∷ bs))
            (recv_some ws handle (size - length got) s).1
  unfolding recv_loop
  recv_loop_more fuel size got b bs s h e = rw (lt→ltb (length got) size h) (rw e)

  recv_loop_done :
      (fuel size : ℕ) (got : List ℕ) (s : State)
      → size ≤ length got
      → recv_loop ws handle (suc fuel) size got s ≡ some (ok tt, got, s)
  unfolding recv_loop
  recv_loop_done fuel size got s h = elim (Bool-cases (ltb (length got) size)) [
    | inl more ↦ absurd (ground arith)
    | inr done ↦ rw done
  ]

  -- Each round ends the loop or brings a byte, so the fuel lasts, whatever the socket answers.
  recv_loop_total :
      (fuel size : ℕ) (got : List ℕ) (s : State)
      → size - length got < fuel
      → recv_loop ws handle fuel size got s ≢ none
  unfolding recv_loop
  recv_loop_total zero size got s h = absurd (omega arith)
  recv_loop_total (suc fuel) size got s h = elim (Bool-cases (ltb (length got) size)) [
    | inr done ↦ rw done (λ e. cc)
    | inl more ↦ elim (answer-cases (recv_some ws handle (size - length got) s).0) [
      | inl (e, failed) ↦ rw more (rw failed (λ e. cc))
      | inr (inl empty) ↦ rw more (rw empty (λ e. cc))
      | inr (inr (b, bs, some_bytes)) ↦ rw more (
          rw some_bytes (
            recv_loop_total fuel size (got ++ (b ∷ bs))
              (recv_some ws handle (size - length got) s).1
              (ground (arith, length-append got (b ∷ bs)))))
    ]
  ]

  recv_exact_total : (size : ℕ) (s : State) → recv_exact ws handle size s ≢ none
  unfolding recv_exact
  recv_exact_total size s = recv_loop_total (suc size) size [] s (omega arith)

  recv_payload_total : (limit size : ℕ) (s : State) → recv_payload ws handle limit size s ≢ none
  unfolding recv_payload
  recv_payload_total limit size s = ground (arith, recv_exact_total size s)

  -- `RecvFrame` returns, whatever the socket answers.
  pub recv_frame_total : (limit : ℕ) (s : State) → recv_frame ws handle limit s ≢ none
  unfolding recv_frame
  recv_frame_total limit s = elim (Option-cases (recv_exact ws handle header_size s)) [
    | inl e ↦ absurd (recv_exact_total header_size s e)
    | inr ((r, header, s'), e) ↦ ground (arith, recv_payload_total limit (decode_header header) s')
  ]

module _ (ws : Winsock) (law : Arrives ws) (socket : ℕ) where
  open ws use {State}
  open law use {pending, recv_brings}

  recv_some_lem :
      (room : ℕ) (s : State)
      → 0 < room
      → recv_some ws (some socket) room s ≡ (recv_answer (ws.recv s room).0, (ws.recv s room).1)
  unfolding recv_some
  recv_some_lem room s h = ground arith

  abbrev Receives : ℕ → ℕ → List ℕ → List ℕ → List ℕ → State → Type 0
  Receives fuel size got want rest s =
      (s' : State) × (recv_loop ws (some socket) fuel size got s ≡ some (ok tt, got ++ want, s'))
      × (pending s' ≡ rest)

  -- One round brings the front of what is wanted.
  recv_round :
      (fuel size : ℕ) (got want rest : List ℕ) (s : State) (b : ℕ) (bs : List ℕ)
      → length got < size
      → want ≡ (b ∷ bs) ++ drop (length (b ∷ bs)) want
      → (ws.recv s (size - length got)).0 ≡ received (b ∷ bs)
      → Receives fuel size
          (got ++ (b ∷ bs))
          (drop (length (b ∷ bs)) want)
          rest
          (ws.recv s (size - length got)).1
      → Receives (suc fuel) size got want rest s
  unfolding recv_answer
  recv_round fuel size got want rest s b bs h cut e (s', runs, left) =
      let room = size - length got in
      let step = recv_some_lem room s (omega arith) in
      (
        s',
        recv_loop_more ws (some socket) fuel size got b bs s h (rw step (rw e))
            ∙ (rw step (
                runs
                ∙ ap (λ all. some (ok tt, all, s'))
                    (append_assoc got (b ∷ bs) (drop (length (b ∷ bs)) want)
                      ∙ ap (◌++◌ got) (sym cut)))),
        left,
      )

  recv_loop_lem :
      (fuel size : ℕ) (got want rest : List ℕ) (s : State)
      → length want < fuel
      → length got + length want ≡ size
      → pending s ≡ want ++ rest
      → Receives fuel size got want rest s
  recv_loop_lem zero size got want rest s h l m = absurd (omega arith)
  recv_loop_lem (suc fuel) size got [] rest s h l m = (
    s,
    recv_loop_done ws (some socket) fuel size got s (omega arith)
        ∙ ap (λ all. some (ok tt, all, s)) (sym (append-nil got)),
    m,
  )
  recv_loop_lem (suc fuel) size got (w ∷ want) rest s h l m =
      let (b, bs, e, few, front) = recv_brings s (size - length got) (omega arith) (λ empty. cc) in
      let (cut, left) =
        append-split (w ∷ want) rest (b ∷ bs) (pending (ws.recv s (size - length got)).1)
          (sym m ∙ front) (omega (arith, few, l)) in
      recv_round fuel size got (w ∷ want) rest s b bs (omega arith) cut e (
        recv_loop_lem fuel size (got ++ (b ∷ bs)) (drop (length bs) want) rest
          (ws.recv s (size - length got)).1 (omega (arith, h, length-drop (length bs) want))
          (omega (arith, few, l, length-append got (b ∷ bs), length-drop (length bs) want)) left)

  recv_exact_lem :
      (want rest : List ℕ) (s : State)
      → pending s ≡ want ++ rest
      → (s' : State) × (recv_exact ws (some socket) (length want) s ≡ some (ok tt, want, s'))
        × (pending s' ≡ rest)
  unfolding recv_exact
  recv_exact_lem want rest s m =
      recv_loop_lem (suc (length want)) (length want) [] want rest s (omega arith) (omega arith) m

  recv_header :
      (limit size : ℕ) (rest : List ℕ) (s : State)
      → 0 < limit
      → limit ≤ max_frame_size
      → size < 2 ^ 32
      → pending s ≡ encode_header size ++ rest
      → (s' : State) × (recv_frame ws (some socket) limit s
          ≡ recv_payload ws (some socket) limit size s')
        × (pending s' ≡ rest)
  unfolding recv_frame
  recv_header limit size rest s h k l m =
      let (s', runs, left) = recv_exact_lem (encode_header size) rest s m in
      let four =
        subst (λ n. recv_exact ws (some socket) n s ≡ some (ok tt, encode_header size, s'))
          (length-encode_header size) runs in
      let allowed : (limit == 0 || ltb max_frame_size limit) ≡ false = ground arith in
      let read : decode_header (encode_header size) ≡ size =
        ap decode_header (sym (append-nil (encode_header size)))
        ∙ (decode-encode_header size [] l).0 in
      (s', rw (allowed, four, read), left)

  recv_payload_lem :
      (limit : ℕ) (payload rest : List ℕ) (s : State)
      → length payload ≤ limit
      → pending s ≡ payload ++ rest
      → (s' : State) × (recv_payload ws (some socket) limit (length payload) s
          ≡ some (ok (length payload, payload), s'))
        × (pending s' ≡ rest)
  unfolding recv_payload
  recv_payload_lem limit [] rest s l m = (s, ground arith, m)
  recv_payload_lem limit (b ∷ bs) rest s l m =
      let (s', runs, left) = recv_exact_lem (b ∷ bs) rest s m in (s', ground arith, left)

  -- A frame that `SendFrame` has built is read back by `RecvFrame`, however the bytes come in: the
  -- payload and its length, and the bytes behind the frame are left for the next call. The payload
  -- is within the limit, and the limit is one that `RecvFrame` takes.
  pub recv_frame-build_frame :
      (limit : ℕ) (payload rest : List ℕ) (s : State)
      → 0 < limit
      → limit ≤ max_frame_size
      → length payload ≤ limit
      → pending s ≡ build_frame payload ++ rest
      → (s' : State) × (recv_frame ws (some socket) limit s
          ≡ some (ok (length payload, payload), s'))
        × (pending s' ≡ rest)
  unfolding recv_frame recv_payload
  recv_frame-build_frame limit payload rest s h k l m =
      let small : length payload < 2 ^ 32 = omega arith in
      let (s₁, header, left) = recv_header limit (length payload) (payload ++ rest) s h k small (
        m
        ∙ (ap (λ bytes. bytes ++ rest) (build_frame_lem payload small)
            ∙ append_assoc (encode_header (length payload)) payload rest)) in
      let (s', runs, after) = recv_payload_lem limit payload rest s₁ l left in
      (s', header ∙ runs, after)

  -- A frame that says it is longer than the limit, on a limit that `RecvFrame` takes, is refused
  -- once its header is read, and what follows the header is left.
  pub recv_frame_too_long :
      (limit size : ℕ) (rest : List ℕ) (s : State)
      → 0 < limit
      → limit ≤ max_frame_size
      → limit < size
      → size < 2 ^ 32
      → pending s ≡ encode_header size ++ rest
      → (s' : State) × (recv_frame ws (some socket) limit s ≡ some (err wsa_no_buffer_space, s'))
        × (pending s' ≡ rest)
  unfolding recv_frame recv_payload
  recv_frame_too_long limit size rest s h k l m e =
      let (s', header, left) = recv_header limit size rest s h k m e in
      (s', header ∙ ground arith, left)
