-- ===== src/Metrics/Client.antt =====
-- lib/src/metrics/client/impl/AtomicClientMetrics.cpp. The steady clock is an argument, in nanoseconds of
-- 64 bits. Each change is one atomic step, and each method on the pending requests holds their lock.
pub mod Pending
use highp_mmorpg.Prelude.{
  ℕ, ◌+◌, ◌-◌, ◌*◌, ◌/◌, ◌%◌, ◌^◌, ◌==◌, ltb, leb, if◌then◌else◌, Bool, true, false, not, ◌&&◌,
  ◌||◌, Option, none, some, List, [], ◌∷◌, length,
}
use highp_mmorpg.Chat.SessionManager.{assign, find_key, erase_key}
use highp_mmorpg.Metrics.{
  TimingWindow, increment, observe_max, observe_window, drain_window, Duration, nanoseconds,
  below_zero,
}

pub data DisconnectReason : Type 0 where
  unset : DisconnectReason
  timeout : DisconnectReason
  server_close : DisconnectReason
  recv_fail : DisconnectReason
  local_close : DisconnectReason

pub record PendingRequest : Type 0 where
  pub response_type : ℕ
  pub sent_at : ℕ
  pub deadline : ℕ

pub record ClientMetrics : Type 0 where
  pub connect_success_total : ℕ
  pub connect_failure_total : ℕ
  pub disconnect_total : ℕ
  pub send_packets_total : ℕ
  pub recv_packets_total : ℕ
  pub send_bytes_total : ℕ
  pub recv_bytes_total : ℕ
  pub send_fail_total : ℕ
  pub response_timeout_total : ℕ
  pub packet_validation_total : ℕ
  pub packet_validation_failure_total : ℕ
  pub disconnect_timeout_total : ℕ
  pub disconnect_server_close_total : ℕ
  pub disconnect_recv_fail_total : ℕ
  pub disconnect_local_close_total : ℕ
  pub connected : ℕ
  pub last_connect_latency : ℕ
  pub session_started_at : ℕ
  pub last_session_uptime : ℕ
  pub max_session_uptime : ℕ
  pub last_recv_at : ℕ
  pub last_disconnect_reason : DisconnectReason
  pub connect_latency : TimingWindow
  pub request_rtt : TimingWindow
  pub pending_requests : List (ℕ × PendingRequest)

unfoldable pub observe_disconnect_reason : DisconnectReason → ClientMetrics → ClientMetrics
observe_disconnect_reason unset m = m
observe_disconnect_reason timeout m = record m {
  disconnect_timeout_total = increment m.disconnect_timeout_total 1;
}
observe_disconnect_reason server_close m = record m {
  disconnect_server_close_total = increment m.disconnect_server_close_total 1;
}
observe_disconnect_reason recv_fail m = record m {
  disconnect_recv_fail_total = increment m.disconnect_recv_fail_total 1;
}
observe_disconnect_reason local_close m = record m {
  disconnect_local_close_total = increment m.disconnect_local_close_total 1;
}

unfoldable pub observe_connect_latency : Duration → Bool → ClientMetrics → ClientMetrics
unfolding observe_window
observe_connect_latency below_zero success m = m
observe_connect_latency (nanoseconds n) true m = record m {
  connect_latency = observe_window n m.connect_latency;
  last_connect_latency = n;
  connect_success_total = increment m.connect_success_total 1;
}
observe_connect_latency (nanoseconds n) false m = record m {
  connect_latency = observe_window n m.connect_latency;
  last_connect_latency = n;
  connect_failure_total = increment m.connect_failure_total 1;
}

unfoldable pub on_connected : ℕ → ClientMetrics → ClientMetrics
on_connected now m = record m { connected = 1; session_started_at = now; last_recv_at = now }

-- The session that ends counts if its start is known and does not lie ahead.
unfoldable pub end_session : ℕ → ClientMetrics → ClientMetrics
unfolding observe_max
end_session now m =
    let started_at = m.session_started_at in
    let ended = record m { session_started_at = 0 } in
    if started_at == 0 || ltb now started_at then ended else record ended {
      last_session_uptime = now - started_at;
      max_session_uptime = observe_max m.max_session_uptime (now - started_at);
    }

unfoldable pub on_disconnected : ℕ → DisconnectReason → ClientMetrics → ClientMetrics
unfolding observe_disconnect_reason end_session
on_disconnected now reason m = end_session now (
    observe_disconnect_reason reason (record m {
      connected = 0;
      disconnect_total = increment m.disconnect_total 1;
      last_disconnect_reason = reason;
    }))

unfoldable pub on_send_completed : ℕ → ClientMetrics → ClientMetrics
on_send_completed bytes m = record m {
  send_packets_total = increment m.send_packets_total 1;
  send_bytes_total = increment m.send_bytes_total bytes;
}

unfoldable pub on_send_failed : ClientMetrics → ClientMetrics
on_send_failed m = record m { send_fail_total = increment m.send_fail_total 1 }

unfoldable pub on_recv_completed : ℕ → ℕ → ClientMetrics → ClientMetrics
on_recv_completed now bytes m = record m {
  recv_packets_total = increment m.recv_packets_total 1;
  recv_bytes_total = increment m.recv_bytes_total bytes;
  last_recv_at = now;
}

unfoldable pub on_packet_validation_succeeded : ClientMetrics → ClientMetrics
on_packet_validation_succeeded m = record m {
  packet_validation_total = increment m.packet_validation_total 1;
}

unfoldable pub on_packet_validation_failed : ClientMetrics → ClientMetrics
on_packet_validation_failed m = record m {
  packet_validation_total = increment m.packet_validation_total 1;
  packet_validation_failure_total = increment m.packet_validation_failure_total 1;
}

-- `timeout_ms` is zero for a timeout that is not positive.
unfoldable pub deadline_of : ℕ → ℕ → ℕ
deadline_of now timeout_ms =
    let timeout_ns = (timeout_ms * 1000000) % 2 ^ 64 in
    if ltb 0 timeout_ns then (now + timeout_ns) % 2 ^ 64 else 0

unfoldable pub track_request : ℕ → ℕ → ℕ → ℕ → ClientMetrics → ClientMetrics
track_request now sequence response_type timeout_ms m =
    if sequence == 0 || response_type == 0 then m else record m {
      pending_requests =
          assign sequence
            (record {
              response_type = response_type;
              sent_at = now;
              deadline = deadline_of now timeout_ms;
            })
            m.pending_requests;
    }

-- The answer to the request `r`, which was found under `sequence`.
unfoldable pub resolve_found : ℕ → ℕ → ℕ → PendingRequest → ClientMetrics → ClientMetrics
unfolding observe_window
resolve_found now sequence received_type r m =
    if r.response_type == received_type
    then record m {
      request_rtt =
          (if leb r.sent_at now
            then observe_window (now - r.sent_at) m.request_rtt
            else m.request_rtt);
      pending_requests = erase_key sequence m.pending_requests;
    }
    else m

unfoldable pub resolve_request : ℕ → ℕ → ℕ → ClientMetrics → ClientMetrics
unfolding resolve_found
resolve_request now sequence received_type m =
    if sequence == 0 then m else elim (find_key sequence m.pending_requests) [
      | none ↦ m
      | some r ↦ resolve_found now sequence received_type r m
    ]

unfoldable pub is_overdue : ℕ → PendingRequest → Bool
is_overdue now r = not (r.deadline == 0) && leb r.deadline now

-- The loop over the requests: those that stay, and the counter of those that do not.
unfoldable pub expire : ℕ → List (ℕ × PendingRequest) → ℕ → List (ℕ × PendingRequest) × ℕ
expire now [] total = ([], total)
expire now ((sequence, r) ∷ rest) total =
    let overdue = is_overdue now r in
    let (kept, total') = expire now rest (if overdue then increment total 1 else total) in
    (if overdue then kept else (sequence, r) ∷ kept, total')

unfoldable pub expire_timed_out_requests : ℕ → ClientMetrics → ClientMetrics
unfolding expire
expire_timed_out_requests now m =
    let (kept, total) = expire now m.pending_requests m.response_timeout_total in
    record m { pending_requests = kept; response_timeout_total = total }

-- What a snapshot has beside the counters. Milliseconds, but for the latency, which stays in
-- nanoseconds here.
pub record Snapshot : Type 0 where
  pub metrics : ClientMetrics
  pub last_session_uptime_ms : ℕ
  pub max_session_uptime_ms : ℕ
  pub current_session_uptime_ms : ℕ
  pub time_since_last_recv_ms : ℕ
  pub pending_request_count : ℕ

unfoldable pub take_snapshot : ℕ → ClientMetrics → Snapshot × ClientMetrics
unfolding expire_timed_out_requests drain_window
take_snapshot now m =
    let expired = expire_timed_out_requests now m in
    let (latency, latency') = drain_window expired.connect_latency in
    let (rtt, rtt') = drain_window expired.request_rtt in
    (
      record {
        metrics = record expired { connect_latency = latency; request_rtt = rtt };
        last_session_uptime_ms = expired.last_session_uptime / 1000000;
        max_session_uptime_ms = expired.max_session_uptime / 1000000;
        current_session_uptime_ms =
            (if ltb 0 expired.connected
                && (ltb 0 expired.session_started_at && leb expired.session_started_at now)
              then (now - expired.session_started_at) / 1000000
              else 0);
        time_since_last_recv_ms =
            (if ltb 0 expired.last_recv_at && leb expired.last_recv_at now
              then (now - expired.last_recv_at) / 1000000
              else 0);
        pending_request_count = length expired.pending_requests % 2 ^ 32;
      },
      record expired { connect_latency = latency'; request_rtt = rtt' },
    )
