-- ===== src/ChatClient.antt =====
-- The chat client, exec/chat/chat-client/Client.cpp, with metrics. What WsaSession, TcpClientSocket and
-- PacketStream answer (Stream.antt) is an argument, and so are the times.
pub mod Sessions
pub mod Cli
pub mod Orderly
use highp_mmorpg.Prelude.{ℕ, ◌+◌, ◌%◌, ◌^◌, ◌==◌, if◌then◌else◌, Bool, true, false, not, ◌&&◌, ◌||◌}
use highp_mmorpg.NetworkError.{NetworkError, socket_invalid}
use highp_mmorpg.Metrics.{Duration}
use highp_mmorpg.Metrics.Client.{
  ClientMetrics, DisconnectReason, server_close, recv_fail, local_close, observe_connect_latency,
  on_connected, on_disconnected, on_send_completed, on_send_failed, on_recv_completed,
  on_packet_validation_succeeded, on_packet_validation_failed, track_request, resolve_request,
}

-- `_tcpClientSocket` with `_packetStream`: none, one with an open handle, or one that was closed.
pub data Socket : Type 0 where
  absent : Socket
  open_socket : Socket
  closed_socket : Socket

pub record Client : Type 0 where
  pub connected : Bool
  pub socket : Socket
  pub next_sequence : ℕ
  pub response_timeout : ℕ
  pub metrics : ClientMetrics

abbrev pub close_socket : Socket → Socket
close_socket absent = absent
close_socket open_socket = closed_socket
close_socket closed_socket = closed_socket

-- Disconnect up to the join of the receiving thread, and behind it. `was` is what the flag held.
unfoldable pub begin_disconnect : Client → Bool × Client
begin_disconnect c = (c.connected, record c { connected = false; socket = close_socket c.socket })

unfoldable pub finish_disconnect : ℕ → DisconnectReason → Bool → Client → Client
finish_disconnect now reason was c = record c {
  socket = absent;
  metrics = (if was then on_disconnected now reason c.metrics else c.metrics);
}

unfoldable pub disconnect : ℕ → DisconnectReason → Client → Client
unfolding begin_disconnect finish_disconnect
disconnect now reason c = let (was, c') = begin_disconnect c in finish_disconnect now reason was c'

-- A connection that was there is given up at `left_at`; the new one is there, or not, after `took`.
unfoldable pub connect : ℕ → Duration → ℕ → Bool → Bool → Client → Bool × Client
unfolding disconnect
connect left_at took now started reached c =
    let c' = if c.connected then disconnect left_at local_close c else c in
    if started && reached
    then (
      true,
      record c' {
        connected = true;
        socket = open_socket;
        metrics = on_connected now (observe_connect_latency took true c'.metrics);
      },
    )
    else (false, record c' { metrics = observe_connect_latency took false c'.metrics })

unfoldable pub take_sequence : Client → ℕ × Client
take_sequence c = (c.next_sequence, record c { next_sequence = (c.next_sequence + 1) % 2 ^ 32 })

abbrev pub is_open : Socket → Bool
is_open absent = false
is_open open_socket = true
is_open closed_socket = false

-- Send, of `size` bytes, with the sequence number and the type of the response that it tracks; `sent` is
-- the answer of SendFrame.
unfoldable pub send : ℕ → ℕ → ℕ → ℕ → Bool → Client → Client
send now size sequence response_type sent c =
    if not (is_open c.socket)
    then c
    else if not sent
    then record c { metrics = on_send_failed c.metrics }
    else record c {
      metrics =
          (if sequence == 0 || response_type == 0
            then on_send_completed size c.metrics
            else track_request now sequence response_type c.response_timeout
                (on_send_completed size c.metrics));
    }

-- What RecvFrame and the packet reader bring in one round of the receiving loop.
pub data Received : Type 0 where
  failed : NetworkError → Received
  nothing : Received
  invalid : ℕ → Received
  no_packet : ℕ → Received
  packet : (size sequence packet_type : ℕ) → Received

abbrev pub failure_reason : NetworkError → DisconnectReason
failure_reason socket_invalid = server_close
failure_reason _ = recv_fail

-- What the receiving thread does when it saw the failure and the flag.
unfoldable pub report_failure : ℕ → NetworkError → Client → Client
report_failure now e c = record c {
  connected = false;
  socket = close_socket c.socket;
  metrics = on_disconnected now (failure_reason e) c.metrics;
}

-- One round of the loop of StartRecvLoop, with no stop requested. The loop is left once the flag is off.
unfoldable pub receive : ℕ → Received → Client → Client
unfolding report_failure
receive now (failed e) c = if c.connected then report_failure now e c else c
receive now nothing c = c
receive now (invalid size) c =
    if c.connected
    then record c { metrics = on_packet_validation_failed (on_recv_completed now size c.metrics) }
    else c
receive now (no_packet size) c =
    if c.connected then record c { metrics = on_recv_completed now size c.metrics } else c
receive now (packet size sequence packet_type) c =
    if c.connected
    then record c {
      metrics =
          resolve_request now sequence packet_type
            (on_packet_validation_succeeded (on_recv_completed now size c.metrics));
    }
    else c
