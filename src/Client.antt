-- ===== src/Client.antt =====
-- network/src/client/windows/Client.cpp and Client.h: the pooled connection slot. The six callbacks
-- are those that `ServerLifeCycle` installs on every slot, so each call of one is an event of the
-- result. Winsock's answers are arguments.
pub mod Events
use highp_mmorpg.Prelude.{
  ℕ, ◌<◌, Bool, true, false, not, ◌||◌, List, [], ◌∷◌, Option, none, some, if◌then◌else◌, ltb,
  length,
}
use highp_mmorpg.Frame.{FrameBuffer, copy_at}

-- `Const::Buffer::sendBufferSize` and `recvBufferSize`
abbrev pub send_buffer_size : ℕ
send_buffer_size = 1024

abbrev pub recv_buffer_size : ℕ
recv_buffer_size = 4096

-- `Client::EventCallbacks`
pub data ClientEvent : Type 0 where
  connected disconnected recv_posted recv_post_failed send_posted send_post_failed : ClientEvent

-- A `none` in `socket` is INVALID_SOCKET. `send_buf` is `sendOverlapped.buf`.
pub record Client : Type 0 where
  pub socket : Option ℕ
  pub frame_buf : FrameBuffer
  pub send_buf : List ℕ
  pub connection_established : Bool
  pub connection_event_counted : Bool

-- `Client::IsConnected`
abbrev pub is_connected : Client → Bool
is_connected c = elim c.socket [ none ↦ false | some _ ↦ true ]

-- `Client::EmitConnectedEvent`
unfoldable pub emit_connected_event : Client → Client × List ClientEvent
emit_connected_event c =
    if not c.connection_established || c.connection_event_counted
    then (c, [])
    else (record c { connection_event_counted = true }, connected ∷ [])

-- `Client::MarkConnectionEstablished`
unfoldable pub mark_connection_established : Client → Client × List ClientEvent
unfolding emit_connected_event
mark_connection_established c = emit_connected_event (record c { connection_established = true })

-- `Client::EmitDisconnectedEvent`
unfoldable pub emit_disconnected_event : Client → Client × List ClientEvent
emit_disconnected_event c =
    if not c.connection_established || not c.connection_event_counted
    then (record c { connection_established = false; connection_event_counted = false }, [])
    else (
      record c { connection_event_counted = false; connection_established = false },
      disconnected ∷ [],
    )

-- What `WSARecv` and `WSASend` answer, with the error they leave.
pub data Posted : Type 0 where
  accepted io_pending refused : Posted

-- `Client::PostRecv`: whether the request was taken.
unfoldable pub post_recv : Posted → Bool × List ClientEvent
post_recv refused = (false, recv_post_failed ∷ [])
post_recv accepted = (true, recv_posted ∷ [])
post_recv io_pending = (true, recv_posted ∷ [])

send_result : Posted → Client → Bool × Client × List ClientEvent
send_result refused c = (false, c, send_post_failed ∷ [])
send_result accepted c = (true, c, send_posted ∷ [])
send_result io_pending c = (true, c, send_posted ∷ [])

-- `Client::PostSend`. The copy is not guarded here: a longer message runs past the array, and
-- `none` is that fault.
unfoldable pub post_send : Posted → List ℕ → Client → Option (Bool × Client × List ClientEvent)
unfolding send_result
post_send answer bytes c =
    if ltb (length c.send_buf) (length bytes)
    then none
    else some (send_result answer (record c { send_buf = copy_at c.send_buf 0 bytes }))

-- `Client::Close`
unfoldable pub close : Client → Client × List ClientEvent
unfolding emit_disconnected_event
close c =
    let (c', events) = emit_disconnected_event c in
    elim c'.socket [ none ↦ (c', events) | some _ ↦ (record c' { socket = none }, events) ]
