-- ===== src/Tests/Dispatch.antt =====
-- The packet dispatcher, and the metrics over its events.
use highp_mmorpg.Prelude.{
  true, ℕ, ◌+◌, ◌%◌, ◌^◌, ◌≡◌, refl, [], ◌∷◌, ◌++◌, some, arith, length, replicate,
  length-replicate,
}
use mathlib.Core.List.{flatten}
use highp_mmorpg.Frame.{max_frame_size, encode_header, decode_header, contents, htonl}
use highp_mmorpg.Stream.{build_frame}
use highp_mmorpg.Client.{Client}
use highp_mmorpg.Client.Events.{
  opens, marks, closes, use_all, connects, disconnects, open_count, IsCounted, use_all_balance,
}
use highp_mmorpg.Dispatcher.{parse_packet, is_packet, Dispatcher, receive}
use highp_mmorpg.Dispatcher.Outcome.{queued}
use highp_mmorpg.Dispatcher.Receiving.{Received, receive_refines}
use highp_mmorpg.Dispatcher.Cuts.{wire, AreSendable}
use highp_mmorpg.Dispatcher.Feed.{Fed, Pieces, receive_all-wire}
use highp_mmorpg.Dispatcher.Limits.{receive_unreachable}
use highp_mmorpg.Dispatcher.Commands.{AllTyped, receive-AllTyped}
use highp_mmorpg.Dispatcher.Tick.{tick}
use highp_mmorpg.Dispatcher.Balance.{IsBalanced, tick-IsBalanced}
use highp_mmorpg.Metrics.{ServerMetrics, empty_window}
use highp_mmorpg.Metrics.Gauges.{on_events, on_events-IsBalanced}
use highp_mmorpg.Client.{accepted, close}
use highp_mmorpg.Server.{set_up}
use highp_mmorpg.Server.Reuse.{set_up-Decodes}
use highp_mmorpg.Dispatcher.Decode.{Decodes}
use highp_mmorpg.Tests.Data.{
  busy, note_close, handlers, first_byte, clock, connected_client, idle, fresh_size, fresh-IsValid,
  fresh_empty,
}

wire_lem :
    flatten ((0 ∷ 0 ∷ []) ∷ (0 ∷ 2 ∷ 7 ∷ 1 ∷ 0 ∷ []) ∷ (0 ∷ 0 ∷ 1 ∷ 9 ∷ []) ∷ [])
    ≡ wire ((7 ∷ 1 ∷ []) ∷ (9 ∷ []) ∷ [])
unfolding flatten build_frame encode_header htonl
wire_lem = refl

pieces : Pieces ((0 ∷ 0 ∷ []) ∷ (0 ∷ 2 ∷ 7 ∷ 1 ∷ 0 ∷ []) ∷ (0 ∷ 0 ∷ 1 ∷ 9 ∷ []) ∷ [])
pieces = (omega arith, (omega arith, (omega arith, tt)))

sendable : AreSendable (is_packet first_byte clock) ((7 ∷ 1 ∷ []) ∷ (9 ∷ []) ∷ [])
unfolding parse_packet
sendable = (omega arith, refl, (omega arith, refl, tt))

receive_all-wire_example :
    Fed first_byte clock 3
      ((0 ∷ 0 ∷ []) ∷ (0 ∷ 2 ∷ 7 ∷ 1 ∷ 0 ∷ []) ∷ (0 ∷ 0 ∷ 1 ∷ 9 ∷ []) ∷ [])
      ((7 ∷ 1 ∷ []) ∷ (9 ∷ []) ∷ [])
      connected_client
      idle
receive_all-wire_example =
    receive_all-wire first_byte clock 3
      ((0 ∷ 0 ∷ []) ∷ (0 ∷ 2 ∷ 7 ∷ 1 ∷ 0 ∷ []) ∷ (0 ∷ 0 ∷ 1 ∷ 9 ∷ []) ∷ [])
      ((7 ∷ 1 ∷ []) ∷ (9 ∷ []) ∷ []) connected_client idle fresh-IsValid fresh_size fresh_empty
      sendable pieces wire_lem

receive_refines_example : Received first_byte clock 3 (0 ∷ 0 ∷ 0 ∷ 1 ∷ 9 ∷ []) connected_client idle
receive_refines_example =
    receive_refines first_byte clock 3 (0 ∷ 0 ∷ 0 ∷ 1 ∷ 9 ∷ []) connected_client idle fresh-IsValid
      (omega (arith, fresh_size))

-- A slot whose buffer has two bytes only.
abbrev small_client : Client
small_client = record connected_client { frame_buf = record { buf = 0 ∷ 0 ∷ []; len = 1 } }

receive-AllTyped_example :
    (c' : Client) × (d' : Dispatcher) × (receive first_byte clock 3
        (0 ∷ 0 ∷ 0 ∷ 1 ∷ 9 ∷ [])
        connected_client
        idle
      ≡ some (c', d'))
    × AllTyped first_byte clock d'
receive-AllTyped_example =
    receive-AllTyped first_byte clock 3 (0 ∷ 0 ∷ 0 ∷ 1 ∷ 9 ∷ []) connected_client idle fresh-IsValid
      tt

tick-IsBalanced_example :
    let d' = (tick first_byte clock note_close handlers busy []).0 in
    IsBalanced d' × (d'.command_queue.write_queue ≡ [])
tick-IsBalanced_example = tick-IsBalanced first_byte clock note_close handlers busy [] refl

use_all_balance_example :
    let (c', es) = use_all connected_client (closes ∷ opens 8 ∷ marks ∷ closes ∷ closes ∷ []) in
    (1 + connects es ≡ open_count c' + disconnects es) × IsCounted c'
use_all_balance_example =
    use_all_balance (closes ∷ opens 8 ∷ marks ∷ closes ∷ closes ∷ []) connected_client
      (record { counted = λ e. refl })

abbrev zero_metrics : ServerMetrics
zero_metrics = record {
  accept_total = 0;
  disconnect_total = 0;
  recv_packets_total = 0;
  send_packets_total = 0;
  recv_bytes_total = 0;
  send_bytes_total = 0;
  send_fail_total = 0;
  packet_validation_total = 0;
  packet_validation_failure_total = 0;
  connected_clients = 0;
  pending_accept_count = 0;
  pending_recv_count = 0;
  pending_send_count = 0;
  dispatcher_queue_length = 0;
  runnable_worker_thread_count = 0;
  queue_wait = empty_window;
  dispatch_process = empty_window;
  tick_duration = empty_window;
  tick_lag = empty_window;
}

on_events-IsBalanced_example :
    (on_events busy.events zero_metrics).dispatcher_queue_length ≡ 1 % 2 ^ 64
on_events-IsBalanced_example = on_events-IsBalanced busy zero_metrics refl refl

-- A header that announces 65535 bytes is pending.
abbrev stuck_client : Client
stuck_client = record connected_client {
  frame_buf = record { buf = 0 ∷ 0 ∷ 255 ∷ 255 ∷ replicate 65532 0; len = 4 };
}

stuck_size : length stuck_client.frame_buf.buf ≡ max_frame_size
stuck_size = omega (arith, length-replicate {A = ℕ} 65532 0)

stuck_header : decode_header (contents stuck_client.frame_buf) ≡ 65535
unfolding contents decode_header
stuck_header = refl

receive_unreachable_example :
    (c' : Client) × (d' : Dispatcher) × (receive first_byte clock 3 (1 ∷ 2 ∷ []) stuck_client idle
      ≡ some (c', d'))
    × (queued d' ≡ queued idle)
    × (contents c'.frame_buf ≡ contents stuck_client.frame_buf ++ 1 ∷ 2 ∷ [])
    × (c'.socket ≡ some 7)
receive_unreachable_example =
    receive_unreachable first_byte clock 3 (1 ∷ 2 ∷ []) stuck_client idle
      (record { within = omega arith; small = omega (arith, stuck_size) }) stuck_size (omega arith)
      (omega (arith, stuck_header), omega (arith, stuck_header)) (omega arith)

-- A slot with two bytes pending is closed and given to the next connection.
abbrev left_client : Client
left_client = record connected_client {
  frame_buf = record { buf = 0 ∷ 0 ∷ 0 ∷ 0 ∷ 0 ∷ 0 ∷ 0 ∷ 0 ∷ []; len = 2 };
}

set_up-Decodes_example :
    let (done, c', events) = set_up true accepted 12 (close left_client).0 in
    (r : Received first_byte clock 3 (0 ∷ 1 ∷ 9 ∷ []) c' idle) × Decodes
      (is_packet first_byte clock)
      (contents left_client.frame_buf ++ 0 ∷ 1 ∷ 9 ∷ [])
      (Received.out r)
set_up-Decodes_example =
    set_up-Decodes first_byte clock 3 12 true accepted (0 ∷ 1 ∷ 9 ∷ []) left_client idle
      (record { within = omega arith; small = omega arith }) (omega arith)
