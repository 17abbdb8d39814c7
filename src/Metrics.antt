-- ===== src/Metrics.antt =====
-- lib/src/metrics/server/impl/AtomicServerMetrics.cpp. A counter is its 64 bits, and so is a gauge, which
-- the source reads as signed. A function here is a call that no other call on the same fields interrupts;
-- Metrics/Atomics.antt takes the calls on a timing window apart into their atomic accesses.
pub mod Window
pub mod Atomics
pub mod Conserved
pub mod Gauges
pub mod Support
pub mod Client
use highp_mmorpg.Prelude.{ℕ, ◌+◌, ◌-◌, ◌%◌, ◌^◌, Bool, true, false, ltb, if◌then◌else◌}

-- `TimingWindowState` and `TimingWindow`
pub record TimingWindow : Type 0 where
  pub count : ℕ
  pub total_nanoseconds : ℕ
  pub max_nanoseconds : ℕ

-- The fields of `AtomicServerMetrics`.
pub record ServerMetrics : Type 0 where
  pub accept_total : ℕ
  pub disconnect_total : ℕ
  pub recv_packets_total : ℕ
  pub send_packets_total : ℕ
  pub recv_bytes_total : ℕ
  pub send_bytes_total : ℕ
  pub send_fail_total : ℕ
  pub packet_validation_total : ℕ
  pub packet_validation_failure_total : ℕ
  pub connected_clients : ℕ
  pub pending_accept_count : ℕ
  pub pending_recv_count : ℕ
  pub pending_send_count : ℕ
  pub dispatcher_queue_length : ℕ
  pub runnable_worker_thread_count : ℕ
  pub queue_wait : TimingWindow
  pub dispatch_process : TimingWindow
  pub tick_duration : TimingWindow
  pub tick_lag : TimingWindow

-- `Increment`, and `fetch_add` on a counter
abbrev pub increment : ℕ → ℕ → ℕ
increment value delta = (value + delta) % 2 ^ 64

-- `Decrement`: `fetch_sub` wraps around in both readings of the bits.
abbrev pub decrement : ℕ → ℕ → ℕ
decrement value delta = (value + (2 ^ 64 - delta % 2 ^ 64)) % 2 ^ 64

-- The store of `ObserveMax`, which read `loaded` before and finds `current_max` now.
abbrev pub store_max : (loaded current_max value : ℕ) → ℕ
store_max loaded current_max value = if ltb loaded value then value else current_max

-- `ObserveMax`
unfoldable pub observe_max : ℕ → ℕ → ℕ
observe_max current_max value = store_max current_max current_max value

-- The accesses of `ObserveWindow` to the count and the total.
abbrev pub add_count : TimingWindow → TimingWindow
add_count w = record w { count = increment w.count 1 }

abbrev pub add_total : ℕ → TimingWindow → TimingWindow
add_total nanoseconds w = record w { total_nanoseconds = increment w.total_nanoseconds nanoseconds }

-- `ObserveWindow`
unfoldable pub observe_window : ℕ → TimingWindow → TimingWindow
observe_window nanoseconds w =
    let w' = add_total nanoseconds (add_count w) in
    record w' { max_nanoseconds = observe_max w'.max_nanoseconds nanoseconds }

abbrev pub empty_window : TimingWindow
empty_window = record { count = 0; total_nanoseconds = 0; max_nanoseconds = 0 }

-- The exchanges of `DrainWindow`: what the window held, and the window.
abbrev pub exchange_count : TimingWindow → ℕ × TimingWindow
exchange_count w = (w.count, record w { count = 0 })

abbrev pub exchange_total : TimingWindow → ℕ × TimingWindow
exchange_total w = (w.total_nanoseconds, record w { total_nanoseconds = 0 })

abbrev pub exchange_max : TimingWindow → ℕ × TimingWindow
exchange_max w = (w.max_nanoseconds, record w { max_nanoseconds = 0 })

-- `DrainWindow`
unfoldable pub drain_window : TimingWindow → TimingWindow × TimingWindow
drain_window w =
    let (count, w₁) = exchange_count w in
    let (total, w₂) = exchange_total w₁ in
    let (longest, w₃) = exchange_max w₂ in
    (record { count = count; total_nanoseconds = total; max_nanoseconds = longest }, w₃)

-- A signed duration.
pub data Duration : Type 0 where
  nanoseconds : ℕ → Duration
  below_zero : Duration

-- What the four duration observers do: one below zero is passed over.
unfoldable pub observe : Duration → TimingWindow → TimingWindow
observe below_zero w = w
observe (nanoseconds n) w = observe_window n w

-- What the server reports to its metrics.
pub data Report : Type 0 where
  accept_posted accept_post_failed accept_completed accept_completion_failed : Report
  client_connected client_disconnected : Report
  recv_posted recv_post_failed send_posted send_post_failed : Report
  recv_completed send_completed : (bytes_transferred : ℕ) (count_payload : Bool) → Report
  worker_dispatch_begin worker_dispatch_end : Report
  packet_validation_succeeded packet_validation_failed : Report
  queue_pushed queue_drained : ℕ → Report
  queue_wait dispatch_process tick_duration tick_lag : Duration → Report

-- The callbacks `OnAcceptPosted` to `ObserveTickLag`.
unfoldable pub on_report : Report → ServerMetrics → ServerMetrics
on_report accept_posted m = record m { pending_accept_count = increment m.pending_accept_count 1 }
on_report accept_post_failed m = m
on_report accept_completed m = record m {
  pending_accept_count = decrement m.pending_accept_count 1;
  accept_total = increment m.accept_total 1;
}
on_report accept_completion_failed m = record m {
  pending_accept_count = decrement m.pending_accept_count 1;
}
on_report client_connected m = record m { connected_clients = increment m.connected_clients 1 }
on_report client_disconnected m = record m {
  connected_clients = decrement m.connected_clients 1;
  disconnect_total = increment m.disconnect_total 1;
}
on_report recv_posted m = record m { pending_recv_count = increment m.pending_recv_count 1 }
on_report recv_post_failed m = m
on_report (recv_completed bytes_transferred false) m = record m {
  pending_recv_count = decrement m.pending_recv_count 1;
}
on_report (recv_completed bytes_transferred true) m = record m {
  pending_recv_count = decrement m.pending_recv_count 1;
  recv_packets_total = increment m.recv_packets_total 1;
  recv_bytes_total = increment m.recv_bytes_total bytes_transferred;
}
on_report send_posted m = record m { pending_send_count = increment m.pending_send_count 1 }
on_report send_post_failed m = record m { send_fail_total = increment m.send_fail_total 1 }
on_report (send_completed bytes_transferred false) m = record m {
  pending_send_count = decrement m.pending_send_count 1;
}
on_report (send_completed bytes_transferred true) m = record m {
  pending_send_count = decrement m.pending_send_count 1;
  send_packets_total = increment m.send_packets_total 1;
  send_bytes_total = increment m.send_bytes_total bytes_transferred;
}
on_report worker_dispatch_begin m = record m {
  runnable_worker_thread_count = increment m.runnable_worker_thread_count 1;
}
on_report worker_dispatch_end m = record m {
  runnable_worker_thread_count = decrement m.runnable_worker_thread_count 1;
}
on_report packet_validation_succeeded m = record m {
  packet_validation_total = increment m.packet_validation_total 1;
}
on_report packet_validation_failed m = record m {
  packet_validation_total = increment m.packet_validation_total 1;
  packet_validation_failure_total = increment m.packet_validation_failure_total 1;
}
on_report (queue_pushed count) m = record m {
  dispatcher_queue_length = increment m.dispatcher_queue_length count;
}
on_report (queue_drained count) m = record m {
  dispatcher_queue_length = decrement m.dispatcher_queue_length count;
}
on_report (queue_wait duration) m = record m { queue_wait = observe duration m.queue_wait }
on_report (dispatch_process duration) m = record m {
  dispatch_process = observe duration m.dispatch_process;
}
on_report (tick_duration duration) m = record m { tick_duration = observe duration m.tick_duration }
on_report (tick_lag duration) m = record m { tick_lag = observe duration m.tick_lag }

-- `TakeSnapshot`, less its clock: what it hands out, and the metrics with their windows drained.
unfoldable pub take_snapshot : ServerMetrics → ServerMetrics × ServerMetrics
unfolding drain_window
take_snapshot m =
    let (wait, wait') = drain_window m.queue_wait in
    let (process, process') = drain_window m.dispatch_process in
    let (duration, duration') = drain_window m.tick_duration in
    let (lag, lag') = drain_window m.tick_lag in
    (
      record m {
        queue_wait = wait;
        dispatch_process = process;
        tick_duration = duration;
        tick_lag = lag;
      },
      record m {
        queue_wait = wait';
        dispatch_process = process';
        tick_duration = duration';
        tick_lag = lag';
      },
    )
