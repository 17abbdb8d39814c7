-- ===== src/Tests/Data.antt =====
-- The outside world that the tests run in.
use highp_mmorpg.Metrics.{empty_window}
use highp_mmorpg.Metrics.Client.{ClientMetrics, unset}
use highp_mmorpg.Prelude.{
  ℕ, zero, suc, ◌+◌, ◌≤◌, ◌<◌, ◌≡◌, ◌≢◌, refl, ap, Bool, true, false, List, [], ◌∷◌, ◌++◌, Option,
  none, some, arith, ◌==◌, leb, if◌then◌else◌, length, length-replicate, take,
}
use highp_mmorpg.Frame.{max_frame_size, contents}
use highp_mmorpg.Frame.Contents.{IsValid}
use highp_mmorpg.Stream.Sockets.{Recv, received, sent, Winsock, Delivers, Arrives}
use highp_mmorpg.Client.{Client}
use highp_mmorpg.Server.{fresh_client}
use highp_mmorpg.Dispatcher.{Dispatcher, PacketCommand, Event}
use highp_mmorpg.Dispatcher.Tick.{Handlers, register_handler}
use highp_mmorpg.Dispatcher.Wire.{Flatbuffers}

abbrev pub head : List ℕ → Option ℕ
head [] = none
head (b ∷ bs) = some b

abbrev pub is_some : Option ℕ → Bool
is_some none = false
is_some (some n) = true

-- A packet is its payload's type, in its first byte.
abbrev pub first_byte : Flatbuffers
first_byte = record {
  Packet = ℕ;
  Payload = ℕ;
  verify = λ bytes. is_some (head bytes);
  get_packet = λ bytes. head bytes;
  payload_type = λ p. p;
  payload_as = λ p type. if p == type then some p else none;
}

abbrev pub clock : ℕ → ℕ
clock n = n + 100

-- A slot with a connection on it, and nothing pending.
abbrev pub connected_client : Client
connected_client = record fresh_client {
  socket = some 7;
  connection_established = true;
  connection_event_counted = true;
}

abbrev pub idle : Dispatcher
idle = record {
  command_queue = record { write_queue = [] };
  tick_batch = [];
  events = [];
  readings = 0;
}

pub fresh_size : length connected_client.frame_buf.buf ≡ max_frame_size
fresh_size = length-replicate {A = ℕ} max_frame_size 0

pub fresh-IsValid : IsValid connected_client.frame_buf
fresh-IsValid = record { within = omega arith; small = omega (arith, fresh_size) }

pub fresh_empty : contents connected_client.frame_buf ≡ []
unfolding contents
fresh_empty = refl

-- A stream that brings one byte at a time, and takes three.
abbrev pub three : ℕ → ℕ
three room = if leb room 3 then room else 3

abbrev pub answer : List ℕ → ℕ → Recv × List ℕ
answer [] room = (received [], [])
answer (b ∷ bs) zero = (received [], b ∷ bs)
answer (b ∷ bs) (suc room) = (received (b ∷ []), bs)

abbrev pub trickle : Winsock
trickle = record {
  State = List ℕ;
  recv = answer;
  send = λ s bytes. (sent (three (length bytes)), s ++ take (three (length bytes)) bytes);
}

three_le : (room : ℕ) → three room ≤ room
three_le room = ground arith

pub trickle_delivers : Delivers trickle
trickle_delivers = record {
  delivered = λ s. s;
  send_adds = λ s bytes n e. taken s bytes n (ground arith);
  failed_adds = λ s bytes e. absurd (ground arith);
}
  where
    taken :
        (s bytes : List ℕ) (n : ℕ)
        → three (length bytes) ≡ n
        → (n ≤ length bytes) × (s ++ take (three (length bytes)) bytes ≡ s ++ take n bytes)
    taken s bytes n e = (omega (arith, e, three_le (length bytes)), ap (λ k. s ++ take k bytes) e)

abbrev pub trickle_arrives : Arrives trickle
trickle_arrives = record { pending = λ s. s; recv_brings = brings }
  where
    brings :
        (s : List ℕ) (room : ℕ)
        → 0 < room
        → s ≢ []
        → (b : ℕ) × (bs : List ℕ) × ((answer s room).0 ≡ received (b ∷ bs))
          × (length (b ∷ bs) ≤ room)
          × (s ≡ (b ∷ bs) ++ (answer s room).1)
    brings [] room h k = absurd (k refl)
    brings (b ∷ bs) (suc room) h k = (b, [], refl, omega arith, refl)
    brings (b ∷ bs) zero h k = absurd (omega arith)

-- The metrics of a client that did nothing yet.
abbrev pub quiet : ClientMetrics
quiet = record {
  connect_success_total = 0;
  connect_failure_total = 0;
  disconnect_total = 0;
  send_packets_total = 0;
  recv_packets_total = 0;
  send_bytes_total = 0;
  recv_bytes_total = 0;
  send_fail_total = 0;
  response_timeout_total = 0;
  packet_validation_total = 0;
  packet_validation_failure_total = 0;
  disconnect_timeout_total = 0;
  disconnect_server_close_total = 0;
  disconnect_recv_fail_total = 0;
  disconnect_local_close_total = 0;
  connected = 0;
  last_connect_latency = 0;
  session_started_at = 0;
  last_session_uptime = 0;
  max_session_uptime = 0;
  last_recv_at = 0;
  last_disconnect_reason = unset;
  connect_latency = empty_window;
  request_rtt = empty_window;
  pending_requests = [];
}

-- A command that waits, and has been reported.
abbrev pub waiting_command : PacketCommand
waiting_command = record { client = 3; payload_type = 9; bytes = 9 ∷ []; enqueued_at_ns = 100 }

abbrev pub busy : Dispatcher
busy = record idle {
  command_queue = record { write_queue = waiting_command ∷ [] };
  events = Event.queue_pushed 1 ∷ [];
}

-- The application's state lists the slots that were closed and the payloads that were handled.
abbrev pub note_close : ℕ → List ℕ → List ℕ
note_close slot w = slot ∷ w

abbrev pub handlers : Handlers first_byte clock note_close
handlers = register_handler first_byte clock note_close 9 (λ slot packet payload w. payload ∷ w) []
