-- ===== src/Stream.antt =====
-- network/src/client/PacketStream.cpp over network/src/client/TcpClientSocket.cpp: length-prefixed
-- frames on a TCP socket. Winsock is a parameter.
pub mod Sockets
pub mod Sending
pub mod Receiving
use highp_mmorpg.Prelude.{
  ℕ, zero, suc, ◌+◌, ◌-◌, ◌%◌, ◌^◌, ◌<◌, ◌≤◌, Bool, true, false, ◌||◌, List, [], ◌∷◌, ◌++◌, Option,
  none, some, if◌then◌else◌, ltb, leb, ◌==◌, length, take, drop, replicate,
}
use highp_mmorpg.NetworkError.{
  Result, ok, err, wsa_invalid_args, wsa_no_buffer_space, wsa_recv_failed, wsa_send_failed,
  socket_invalid,
}
use highp_mmorpg.Frame.{max_frame_size, header_size, htonl, encode_header, decode_header, copy_at}
use Sockets.{Winsock, Recv, Sent}

-- The frame that `PacketStream::SendFrame` builds: a zeroed vector, with the header and then the
-- payload copied in. `payloadSize` is in network order where it is tested.
unfoldable pub build_frame : List ℕ → List ℕ
build_frame payload =
    let blank = replicate (header_size + length payload) 0 in
    let headed = copy_at blank 0 (encode_header (length payload)) in
    if ltb 0 (htonl (length payload % 2 ^ 32)) then copy_at headed header_size payload else headed

-- `TcpClientSocket::IsConnected`; a `none` is InvalidSocket.
abbrev pub is_connected : Option ℕ → Bool
is_connected handle = elim handle [ none ↦ false | some _ ↦ true ]

abbrev int_max : ℕ
int_max = 2 ^ 31 - 1

-- WSAEINTR, WSAENOTSOCK, WSAESHUTDOWN: the socket was closed on this side.
abbrev closed_locally : ℕ → Bool
closed_locally code = code == 10004 || (code == 10038 || code == 10058)

unfoldable pub recv_answer : Recv → Result (List ℕ)
recv_answer (Recv.received bytes) = ok bytes
recv_answer (Recv.failed code) =
    if closed_locally code then err socket_invalid else err wsa_recv_failed

-- The length of the next call of `send`, an `int`.
abbrev pub chunk_size : ℕ → ℕ
chunk_size remain = if ltb remain int_max then remain else int_max

module _ (ws : Winsock) where
  open ws use {State, send}

  -- The loop of `TcpClientSocket::SendAll`, on the bytes that are left; `none` means that the fuel
  -- ran out.
  unfoldable pub send_rest : ℕ → List ℕ → State → Option (Result (Unit {0}) × State)
  send_rest zero bytes s = none
  send_rest (suc fuel) bytes s =
      let (answer, s') = send s (take (chunk_size (length bytes)) bytes) in
      let rest : Option (Result (Unit {0}) × State) = elim answer [
        | Sent.failed ↦ some (err wsa_send_failed, s')
        | Sent.sent n ↦
            if n == 0 then some (err wsa_send_failed, s') else send_rest fuel (drop n bytes) s'
      ] in
      if ltb 0 (length bytes) then rest else some (ok tt, s)

module _ (ws : Winsock) (handle : Option ℕ) where
  open ws use {State, recv}

  -- `TcpClientSocket::SendAll`
  unfoldable pub send_all : List ℕ → State → Option (Result (Unit {0}) × State)
  send_all bytes s =
      if is_connected handle
      then send_rest ws (suc (length bytes)) bytes s
      else some (err socket_invalid, s)

  -- `PacketStream::SendFrame`
  unfoldable pub send_frame : List ℕ → State → Option (Result (Unit {0}) × State)
  send_frame payload s = send_all (build_frame payload) s

  -- `TcpClientSocket::RecvSome`, into a buffer of that size.
  unfoldable pub recv_some : ℕ → State → Result (List ℕ) × State
  unfolding recv_answer
  recv_some room s =
      let (answer, s') = recv s room in
      if is_connected handle
      then if room == 0 then (ok [], s) else (recv_answer answer, s')
      else (err socket_invalid, s)

  -- The loop of `PacketStream::RecvExact`, with the bytes that it has put into the buffer.
  unfoldable pub recv_loop : ℕ → ℕ → List ℕ → State → Option (Result (Unit {0}) × List ℕ × State)
  recv_loop zero size got s = none
  recv_loop (suc fuel) size got s =
      let (answer, s') = recv_some (size - length got) s in
      let rest : Option (Result (Unit {0}) × List ℕ × State) = elim answer [
        | err e ↦ some (err e, got, s')
        | ok [] ↦ some (err socket_invalid, got, s')
        | ok (b ∷ bs) ↦ recv_loop fuel size (got ++ (b ∷ bs)) s'
      ] in
      if ltb (length got) size then rest else some (ok tt, got, s)

  -- `PacketStream::RecvExact`. Each round but the last brings a byte.
  unfoldable pub recv_exact : ℕ → State → Option (Result (Unit {0}) × List ℕ × State)
  recv_exact size s = recv_loop (suc size) size [] s

  -- The part of `RecvFrame` behind the header.
  unfoldable pub recv_payload : ℕ → ℕ → State → Option (Result (ℕ × List ℕ) × State)
  recv_payload limit payload_size s =
      if ltb limit payload_size
      then some (err wsa_no_buffer_space, s)
      else if payload_size == 0
      then some (ok (0, []), s)
      else elim (recv_exact payload_size s) [
        | none ↦ none
        | some (err e, _, s') ↦ some (err e, s')
        | some (ok _, payload, s') ↦ some (ok (payload_size, payload), s')
      ]

  -- `PacketStream::RecvFrame`: the payload and its length. `outPayload` is given where the call
  -- succeeds; what a failed call leaves there is not modelled.
  unfoldable pub recv_frame : ℕ → State → Option (Result (ℕ × List ℕ) × State)
  recv_frame limit s =
      if limit == 0 || ltb max_frame_size limit
      then some (err wsa_invalid_args, s)
      else elim (recv_exact header_size s) [
        | none ↦ none
        | some (err e, _, s') ↦ some (err e, s')
        | some (ok _, header, s') ↦ recv_payload limit (decode_header header) s'
      ]
