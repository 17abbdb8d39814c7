-- ===== src/Chat/Session/Framing.antt =====
-- What `Session::Send` hands to Winsock.
use highp_mmorpg.Prelude.{
  ℕ, ◌+◌, ◌-◌, ◌^◌, ◌≤◌, ◌<◌, ◌≡◌, refl, sym, ap, ◌∙◌, ◌⊎◌, inl, inr, Bool, true, false, List, [],
  ◌∷◌, ◌++◌, Option, none, some, arith, ltb, if◌then◌else◌, Bool-cases, length, replicate, take,
  drop, length-append, take-append_eq, length-drop, length-replicate,
}
use highp_mmorpg.Frame.{header_size, encode_header, copy_at}
use highp_mmorpg.Frame.Header.{length-encode_header}
use highp_mmorpg.Frame.Contents.{length-copy_at}
use highp_mmorpg.Client.{
  Client, ClientEvent, Posted, send_posted, send_post_failed, accepted, io_pending, refused,
  is_connected, send_buffer_size, post_send,
}
use highp_mmorpg.Stream.Sending.{headed_lem, copy_at_end}
use highp_mmorpg.Chat.Session.{
  Sending, not_connected, payload_too_large, exceeds_send_buffer, send_failed, sent, session_frame,
  send_on,
}

-- The frame is the header with the packet behind it.
pub session_frame_lem : (buf : List ℕ) → session_frame buf ≡ encode_header (length buf) ++ buf
unfolding session_frame
session_frame_lem buf =
    let header = encode_header (length buf) in
    let blank = replicate {A = ℕ} (length header + length buf) 0 in
    rw headed_lem (
      rw (← length-encode_header (length buf)) (
        copy_at_end header (drop (length header) blank) buf (
          omega (
            arith,
            length-drop (length header) blank,
            length-replicate {A = ℕ} (length header + length buf) 0,
          ))))

pub length-session_frame : (buf : List ℕ) → length (session_frame buf) ≡ header_size + length buf
length-session_frame buf = omega (
  arith,
  ap length (session_frame_lem buf),
  length-encode_header (length buf),
  length-append (encode_header (length buf)) buf,
)

-- How a send ends on a client with a whole send buffer: its bytes are in the buffer and with Winsock,
-- or they are not and the outcome says why.
pub data Ends (buf : List ℕ) (c : Client)
    : Option (Sending × Client × List ClientEvent) → Type 0 where
  unconnected : is_connected c ≡ false → Ends buf c (some (not_connected, c, []))
  too_long :
      is_connected c ≡ true
      → send_buffer_size < header_size + length buf
      → (why : Sending) → (why ≡ payload_too_large) ⊎ (why ≡ exceeds_send_buffer)
      → Ends buf c (some (why, c, []))
  posted :
      {c' : Client} {events : List ClientEvent} (why : Sending)
      → is_connected c ≡ true
      → header_size + length buf ≤ send_buffer_size
      → (why ≡ send_failed) ⊎ (why ≡ sent (encode_header (length buf) ++ buf))
      → take (header_size + length buf) c'.send_buf ≡ encode_header (length buf) ++ buf
      → length c'.send_buf ≡ send_buffer_size
      → c' ≡ record c { send_buf = c'.send_buf }
      → Ends buf c (some (why, c', events))

pub post_send_lem :
    (answer : Posted) (bytes : List ℕ) (c : Client)
    → length bytes ≤ length c.send_buf
    → (taken : Bool) × (events : List ClientEvent) × (post_send answer bytes c
        ≡ some (taken, record c { send_buf = copy_at c.send_buf 0 bytes }, events))
unfolding post_send
post_send_lem accepted bytes c h = (true, send_posted ∷ [], ground arith)
post_send_lem io_pending bytes c h = (true, send_posted ∷ [], ground arith)
post_send_lem refused bytes c h = (false, send_post_failed ∷ [], ground arith)

pub posted_lem :
    (answer : Posted) (buf : List ℕ) (c : Client)
    → length c.send_buf ≡ send_buffer_size
    → is_connected c ≡ true
    → header_size + length buf ≤ send_buffer_size
    → Ends buf c (elim (post_send answer (session_frame buf) c) [
      | none ↦ none
      | some (taken, c', events) ↦
          some (if taken then sent (session_frame buf) else send_failed, c', events)
    ])
posted_lem answer buf c h on fits =
    let size = length-session_frame buf in
    let (taken, events, e) = post_send_lem answer (session_frame buf) c (omega (arith, size)) in
    rw e (
      posted {c' = record c { send_buf = copy_at c.send_buf 0 (session_frame buf) }}
        {events = events} (if taken then sent (session_frame buf) else send_failed) on fits
        (sent_cases taken)
        (take-append_eq (header_size + length buf) (session_frame buf) _ (sym size)
          ∙ session_frame_lem buf)
        (length-copy_at c.send_buf 0 (session_frame buf) (omega (arith, size)) ∙ h) refl)
  where
    sent_cases :
        (taken : Bool)
        → ((if taken then sent (session_frame buf) else send_failed) ≡ send_failed)
          ⊎ ((if taken then sent (session_frame buf) else send_failed)
              ≡ sent (encode_header (length buf) ++ buf))
    sent_cases true = inr (ap sent (session_frame_lem buf))
    sent_cases false = inl refl

-- On a client with a whole send buffer a send never runs past it: what is longer is refused before
-- the copy, and so is a client that is not connected. A frame that is posted is the big-endian
-- length with the packet behind it, at the front of the send buffer.
pub send_on-Ends :
    (answer : Posted) (buf : List ℕ) (c : Client)
    → length c.send_buf ≡ send_buffer_size
    → Ends buf c (send_on answer buf c)
unfolding send_on
send_on-Ends answer buf c h = elim (Bool-cases (is_connected c)) [
  | inr off ↦ rw off (unconnected off)
  | inl on ↦ elim (Bool-cases (ltb (2 ^ 32 - 1) (length buf))) [
    | inl huge ↦ rw (on, huge) (too_long on (ground arith) payload_too_large (inl refl))
    | inr small ↦ elim (Bool-cases (ltb send_buffer_size (header_size + length buf))) [
      | inl long ↦ rw (on, small, long) (too_long on (ground arith) exceeds_send_buffer (inr refl))
      | inr fits ↦ rw (on, small, fits) (posted_lem answer buf c h on (ground arith))
    ]
  ]
]

pub post_send_taken :
    (answer : Posted) (bytes : List ℕ) (c : Client)
    → (answer ≡ accepted) ⊎ (answer ≡ io_pending)
    → length bytes ≤ length c.send_buf
    → (c' : Client) × (events : List ClientEvent) × (post_send answer bytes c
        ≡ some (true, c', events))
unfolding post_send
post_send_taken answer bytes c (inl e) h =
    (record c { send_buf = copy_at c.send_buf 0 bytes }, send_posted ∷ [], ground arith)
post_send_taken answer bytes c (inr e) h =
    (record c { send_buf = copy_at c.send_buf 0 bytes }, send_posted ∷ [], ground arith)

-- A packet that fits, on a connected client and with no refusal, is sent.
pub send_on_sent :
    (answer : Posted) (buf : List ℕ) (c : Client)
    → (answer ≡ accepted) ⊎ (answer ≡ io_pending)
    → length c.send_buf ≡ send_buffer_size
    → is_connected c ≡ true
    → header_size + length buf ≤ send_buffer_size
    → (c' : Client) × (events : List ClientEvent) × (send_on answer buf c
        ≡ some (sent (encode_header (length buf) ++ buf), c', events))
unfolding send_on
send_on_sent answer buf c taken h on fits =
    let size = length-session_frame buf in
    let (c', events, e) =
      post_send_taken answer (session_frame buf) c taken (omega (arith, size)) in
    let small : ltb (2 ^ 32 - 1) (length buf) ≡ false = ground arith in
    let short : ltb send_buffer_size (header_size + length buf) ≡ false = ground arith in
    (c', events, rw (on, small, short, e, session_frame_lem buf) refl)
