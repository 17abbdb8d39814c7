-- ===== src/Chat/Session/Delivery.antt =====
-- What a loop of `User::Send` calls does.
use highp_mmorpg.Prelude.{
  ℕ, ◌+◌, ◌≤◌, ◌≡◌, refl, sym, ap, subst, ◌∙◌, ◌⊎◌, inl, inr, true, false, List, [], ◌∷◌, ◌++◌,
  Option, arith, All, ◌==◌, Bool-cases, length, map, append-nil, append_assoc,
}
use highp_mmorpg.Frame.{header_size, encode_header}
use highp_mmorpg.Client.{
  Client, ClientEvent, Posted, accepted, io_pending, is_connected, send_buffer_size,
}
use highp_mmorpg.Chat.Message.{Message}
use highp_mmorpg.Chat.Session.{Session, User, Net, update, Sending, send, send_to, after_send}
use highp_mmorpg.Chat.Session.Framing.{
  Ends, unconnected, too_long, posted, send_on-Ends, send_on_sent,
}

-- Every slot has a whole send buffer, and no copy has run past one.
pub record IsSound (net : Net) : Type 0 where
  pub buffers : (slot : ℕ) → length (net.slots slot).send_buf ≡ send_buffer_size
  pub whole : net.faulted ≡ false

-- What a send leaves of the clients: only the send buffers have changed.
abbrev pub IsUnchanged : Net → Net → Type 0
IsUnchanged net net' =
    (slot : ℕ) → net'.slots slot ≡ record (net.slots slot) { send_buf = (net'.slots slot).send_buf }

update_sound :
    (net : Net) (slot : ℕ) (c : Client)
    → IsSound net
    → length c.send_buf ≡ send_buffer_size
    → c ≡ record (net.slots slot) { send_buf = c.send_buf }
    → (other : ℕ)
    → (length (update net.slots slot c other).send_buf ≡ send_buffer_size)
      × (update net.slots slot c other
          ≡ record (net.slots other) { send_buf = (update net.slots slot c other).send_buf })
update_sound net slot c v size same other = elim (Bool-cases (other == slot)) [
  | inl here ↦
      let e : other ≡ slot = ground arith in
      rw here (size, subst (λ k. c ≡ record (net.slots k) { send_buf = c.send_buf }) (sym e) same)
  | inr away ↦ rw away (v.buffers other, refl)
]

-- After a send the buffers are whole, and the clients are as they were but for what was copied.
after_send_lem :
    (buf : List ℕ) (slot : ℕ) (net : Net) {r : Option (Sending × Client × List ClientEvent)}
    → IsSound net
    → Ends buf (net.slots slot) r
    → IsSound (after_send slot net r) × IsUnchanged net (after_send slot net r)
unfolding after_send
after_send_lem buf slot net v (unconnected off) =
    let k = update_sound net slot (net.slots slot) v (v.buffers slot) refl in
    (record { buffers = λ other. (k other).0; whole = v.whole }, λ other. (k other).1)
after_send_lem buf slot net v (too_long on long why e) =
    let k = update_sound net slot (net.slots slot) v (v.buffers slot) refl in
    (record { buffers = λ other. (k other).0; whole = v.whole }, λ other. (k other).1)
after_send_lem buf slot net v (posted {c' = c'} why on fits e front size same) =
    let k = update_sound net slot c' v size same in
    (record { buffers = λ other. (k other).0; whole = v.whole }, λ other. (k other).1)

module _ (wsa : ℕ → Posted) (encode : Message → List ℕ) where
  send_lem :
      (s : Session) (msg : Message) (net : Net)
      → IsSound net
      → let net' = send wsa encode s msg net in IsSound net' × IsUnchanged net net'
  unfolding send
  send_lem s msg net v =
      after_send_lem (encode msg) s.client net v
        (send_on-Ends (wsa net.calls) (encode msg) (net.slots s.client) (v.buffers s.client))

  -- If every slot has a whole send buffer and no copy has run past one, a loop of sends keeps that,
  -- whatever Winsock answers, and changes nothing of the clients but what their send buffers hold.
  pub send_to-IsSound :
      (us : List User) (msg : Message) (net : Net)
      → IsSound net
      → let net' = send_to wsa encode us msg net in IsSound net' × IsUnchanged net net'
  unfolding send_to
  send_to-IsSound [] msg net v = (v, λ slot. refl)
  send_to-IsSound (u ∷ us) msg net v =
      let (v₁, same₁) = send_lem u.session msg net v in
      let (v₂, same₂) = send_to-IsSound us msg (send wsa encode u.session msg net) v₁ in
      (
        v₂,
        λ slot.
            same₂ slot
            ∙ ap
                (λ (c : Client). record c {
                  send_buf =
                      ((send_to wsa encode us msg (send wsa encode u.session msg net)).slots
                        slot).send_buf;
                })
                (same₁ slot),
      )

  -- The packet fits a send buffer behind its header, and Winsock refuses no call.
  abbrev pub IsDeliverable : Message → Type 0
  IsDeliverable msg =
      (header_size + length (encode msg) ≤ send_buffer_size)
      × ((n : ℕ) → (wsa n ≡ accepted) ⊎ (wsa n ≡ io_pending))

  abbrev pub framed : Message → User → ℕ × List ℕ
  framed msg u = (u.session.client, encode_header (length (encode msg)) ++ encode msg)

  abbrev pub AreConnected : Net → List User → Type 0
  AreConnected net us = All (λ (u : User). is_connected (net.slots u.session.client) ≡ true) us

  outbox-send :
      (s : Session) (msg : Message) (net : Net)
      → IsSound net
      → IsDeliverable msg
      → is_connected (net.slots s.client) ≡ true
      → (send wsa encode s msg net).outbox
        ≡ net.outbox ++ (s.client, encode_header (length (encode msg)) ++ encode msg) ∷ []
  unfolding send after_send
  outbox-send s msg net v d on =
      let (c', events, e) =
        send_on_sent (wsa net.calls) (encode msg) (net.slots s.client) (d.1 net.calls)
          (v.buffers s.client) on d.0 in
      rw e refl

  connected-send :
      (us : List User) (net net' : Net)
      → IsUnchanged net net'
      → AreConnected net us
      → AreConnected net' us
  connected-send [] net net' same on = tt
  connected-send (u ∷ us) net net' same on = (
    ap (λ (c : Client). is_connected c) (same u.session.client) ∙ on.0,
    connected-send us net net' same on.1,
  )

  -- If the users are all connected, every slot has a whole send buffer, the packet fits one behind
  -- its header and Winsock refuses no call, a loop of sends sends the frame to each of the users,
  -- once each and in their order.
  pub outbox-send_to :
      (us : List User) (msg : Message) (net : Net)
      → IsSound net
      → IsDeliverable msg
      → AreConnected net us
      → (send_to wsa encode us msg net).outbox ≡ net.outbox ++ map (framed msg) us
  unfolding send_to
  outbox-send_to [] msg net v d on = sym (append-nil net.outbox)
  outbox-send_to (u ∷ us) msg net v d on =
      let net' = send wsa encode u.session msg net in
      let (v', same) = send_lem u.session msg net v in
      outbox-send_to us msg net' v' d (connected-send us net net' same on.1)
      ∙ ap (λ out. out ++ map (framed msg) us) (outbox-send u.session msg net v d on.0)
      ∙ append_assoc net.outbox (framed msg u ∷ []) (map (framed msg) us)
