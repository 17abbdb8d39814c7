-- ===== src/Server/Reuse.antt =====
-- What a pooled client hands on to its next connection.
use highp_mmorpg.Prelude.{
  ℕ, ◌+◌, ◌≤◌, ◌≡◌, sym, subst, ◌∙◌, inl, inr, Bool, List, ◌++◌, some, arith, Bool-cases, length,
}
use highp_mmorpg.Frame.{FrameBuffer, contents}
use highp_mmorpg.Frame.Contents.{IsValid}
use highp_mmorpg.Client.{
  Client, Posted, mark_connection_established, emit_connected_event, emit_disconnected_event,
  post_recv, close,
}
use highp_mmorpg.Dispatcher.Wire.{Flatbuffers}
use highp_mmorpg.Dispatcher.{Dispatcher, is_packet}
use highp_mmorpg.Dispatcher.Decode.{Decodes}
use highp_mmorpg.Dispatcher.Receiving.{Received, receive_refines}
use highp_mmorpg.Server.{set_up}

frame_buf-close : (c : Client) → (close c).0.frame_buf ≡ c.frame_buf
unfolding close emit_disconnected_event
frame_buf-close c = ground arith

frame_buf-mark : (c : Client) → (mark_connection_established c).0.frame_buf ≡ c.frame_buf
unfolding mark_connection_established emit_connected_event
frame_buf-mark c = ground arith

frame_buf-set_up :
    (associated : Bool) (answer : Posted) (socket : ℕ) (c : Client)
    → let (done, c', events) = set_up associated answer socket c in c'.frame_buf ≡ c.frame_buf
unfolding set_up
frame_buf-set_up associated answer socket c =
    let c₁ = record c { socket = some socket } in
    elim (Bool-cases associated) [
      | inr e ↦ rw (e, set_up) (frame_buf-close c₁)
      | inl e ↦ elim (Bool-cases (post_recv answer).0) [
        | inr f ↦ rw (e, f, set_up) (frame_buf-close c₁)
        | inl f ↦ rw (e, f, set_up) (frame_buf-mark c₁)
      ]
    ]

module _ (fb : Flatbuffers) (now : ℕ → ℕ) where
  -- A close and the next connection on the client keep what the connection before left pending: on a
  -- valid buffer, the first bytes of the next one, if they fit, are decoded behind it.
  pub set_up-Decodes :
      (slot socket : ℕ) (associated : Bool) (answer : Posted) (bytes : List ℕ) (c : Client)
      (d : Dispatcher)
      → IsValid c.frame_buf
      → c.frame_buf.len + length bytes ≤ length c.frame_buf.buf
      → let (done, c', events) = set_up associated answer socket (close c).0 in
        (r : Received fb now slot bytes c' d) × Decodes
          (is_packet fb now)
          (contents c.frame_buf ++ bytes)
          (Received.out r)
  set_up-Decodes slot socket associated answer bytes c d v fits =
      let (done, c', events) = set_up associated answer socket (close c).0 in
      let same = frame_buf-set_up associated answer socket (close c).0 ∙ frame_buf-close c in
      let r =
        receive_refines fb now slot bytes c' d (subst IsValid (sym same) v)
          (subst (λ (f : FrameBuffer). f.len + length bytes ≤ length f.buf) (sym same) fits) in
      (
        r,
        subst (λ (f : FrameBuffer). Decodes (is_packet fb now) (contents f ++ bytes) r.out) same
            r.decodes,
      )
