-- ===== src/ChatClient/Sessions.antt =====
-- The connections of the chat client and what the metrics count of them: ChatClient.antt.
use highp_mmorpg.Prelude.{
  ℕ, ◌+◌, ◌%◌, ◌^◌, ◌≡◌, refl, sym, ap, ap₂, subst, ◌∙◌, if◌then◌else◌, inl, inr, Bool, true, false,
  ◌&&◌, List, [], ◌∷◌, arith, Bool-cases,
}
use highp_mmorpg.NetworkError.{NetworkError}
use highp_mmorpg.Metrics.{nanoseconds, increment}
use highp_mmorpg.Metrics.Client.{
  ClientMetrics, DisconnectReason, unset, timeout, server_close, recv_fail, local_close,
  observe_disconnect_reason, observe_connect_latency, on_connected, end_session, on_disconnected,
  on_send_completed, on_send_failed, on_recv_completed, on_packet_validation_succeeded,
  on_packet_validation_failed, track_request, resolve_found, resolve_request,
}
use highp_mmorpg.ChatClient.{
  Client, begin_disconnect, finish_disconnect, disconnect, connect, send, Received, failed, nothing,
  invalid, no_packet, packet, failure_reason, report_failure, receive,
}

pub data Call : Type 0 where
  connects : (left_at took now : ℕ) (started reached : Bool) → Call
  disconnects : ℕ → DisconnectReason → Call
  sends : (now size sequence response_type : ℕ) (sent : Bool) → Call
  receives : ℕ → Received → Call

unfoldable pub run : Call → Client → Client
run (connects left_at took now started reached) c =
    (connect left_at (nanoseconds took) now started reached c).1
run (disconnects now reason) c = disconnect now reason c
run (sends now size sequence response_type sent) c = send now size sequence response_type sent c
run (receives now r) c = receive now r c

unfoldable pub run_all : List Call → Client → Client
run_all [] c = c
run_all (call ∷ calls) c = run_all calls (run call c)

-- The connections that were counted as made, and those counted as ended.
abbrev Same : ClientMetrics → ClientMetrics → Type 0
Same m m' =
    (m'.connect_success_total ≡ m.connect_success_total)
    × (m'.disconnect_total ≡ m.disconnect_total)

abbrev pub flag : Bool → ℕ
flag true = 1
flag false = 0

-- The connections that were made are those that ended, and the one that is there.
pub record IsBalanced (c : Client) : Type 0 where
  pub balanced :
      c.metrics.connect_success_total % 2 ^ 64
      ≡ (c.metrics.disconnect_total + flag c.connected) % 2 ^ 64

on_disconnected_lem :
    (now : ℕ) (reason : DisconnectReason) (m : ClientMetrics)
    → ((on_disconnected now reason m).connect_success_total ≡ m.connect_success_total)
      × ((on_disconnected now reason m).disconnect_total ≡ increment m.disconnect_total 1)
unfolding on_disconnected end_session observe_disconnect_reason
on_disconnected_lem now unset m = ground arith
on_disconnected_lem now timeout m = ground arith
on_disconnected_lem now server_close m = ground arith
on_disconnected_lem now recv_fail m = ground arith
on_disconnected_lem now local_close m = ground arith

track_request_lem :
    (now sequence response_type timeout_ms : ℕ) (m : ClientMetrics)
    → Same m (track_request now sequence response_type timeout_ms m)
unfolding track_request
track_request_lem now sequence response_type timeout_ms m = ground arith

resolve_request_lem :
    (now sequence received_type : ℕ) (m : ClientMetrics)
    → Same m (resolve_request now sequence received_type m)
unfolding resolve_request resolve_found
resolve_request_lem now sequence received_type m = ground arith

-- The metrics after the report that a connection ended.
ended :
    (now : ℕ) (reason : DisconnectReason) (m : ClientMetrics)
    → m.connect_success_total % 2 ^ 64 ≡ (m.disconnect_total + 1) % 2 ^ 64
    → (on_disconnected now reason m).connect_success_total % 2 ^ 64
      ≡ ((on_disconnected now reason m).disconnect_total + 0) % 2 ^ 64
ended now reason m h =
    let (made, counted) = on_disconnected_lem now reason m in omega (arith, h, made, counted)

balanced_of :
    (c : Client) {b : Bool}
    → IsBalanced c
    → c.connected ≡ b
    → c.metrics.connect_success_total % 2 ^ 64 ≡ (c.metrics.disconnect_total + flag b) % 2 ^ 64
balanced_of c h e = h.balanced ∙ ap (λ b. (c.metrics.disconnect_total + flag b) % 2 ^ 64) e

disconnect-IsBalanced :
    (now : ℕ) (reason : DisconnectReason) (c : Client)
    → IsBalanced c
    → IsBalanced (disconnect now reason c)
unfolding disconnect begin_disconnect finish_disconnect
disconnect-IsBalanced now reason c h = elim (Bool-cases c.connected) [
  | inl e ↦ record { balanced = rw e (ended now reason c.metrics (balanced_of c h e)) }
  | inr e ↦ record { balanced = rw e (balanced_of c h e) }
]

disconnect_off :
    (now : ℕ) (reason : DisconnectReason) (c : Client) → (disconnect now reason c).connected ≡ false
unfolding disconnect begin_disconnect finish_disconnect
disconnect_off now reason c = refl

-- Connect, from a client that has no connection.
connect_idle-IsBalanced :
    (took now : ℕ) (started reached : Bool) (left_at : ℕ) (c : Client)
    → c.connected ≡ false
    → IsBalanced c
    → IsBalanced (connect left_at (nanoseconds took) now started reached c).1
unfolding connect observe_connect_latency on_connected
connect_idle-IsBalanced took now started reached left_at c e h =
    let before = balanced_of c h e in
    elim (Bool-cases (started && reached)) [
      | inl yes' ↦ record { balanced = rw (e, yes') (omega (arith, before)) }
      | inr no' ↦ record { balanced = rw (e, no') before }
    ]

-- Connect on a client that is connected is Connect after Disconnect.
connect_again :
    (left_at took now : ℕ) (started reached : Bool) (c : Client)
    → c.connected ≡ true
    → (connect left_at (nanoseconds took) now started reached c).1
      ≡ (connect left_at
          (nanoseconds took)
          now
          started
          reached
          (disconnect left_at local_close c)).1
unfolding connect disconnect begin_disconnect finish_disconnect
connect_again left_at took now started reached c e = rw e

connect-IsBalanced :
    (left_at took now : ℕ) (started reached : Bool) (c : Client)
    → IsBalanced c
    → IsBalanced (connect left_at (nanoseconds took) now started reached c).1
connect-IsBalanced left_at took now started reached c h = elim (Bool-cases c.connected) [
  | inl e ↦
      let d = disconnect left_at local_close c in
      subst IsBalanced (sym (connect_again left_at took now started reached c e)) (
        connect_idle-IsBalanced took now started reached left_at d
          (disconnect_off left_at local_close c) (disconnect-IsBalanced left_at local_close c h))
  | inr e ↦ connect_idle-IsBalanced took now started reached left_at c e h
]

-- A step that leaves the flag and both counts alone.
kept :
    (c c' : Client)
    → c'.connected ≡ c.connected
    → Same c.metrics c'.metrics
    → IsBalanced c
    → IsBalanced c'
kept c c' e same h = record {
  balanced =
      ap (λ n. n % 2 ^ 64) same.0
      ∙ (h.balanced ∙ ap₂ (λ n b. (n + flag b) % 2 ^ 64) (sym same.1) (sym e));
}

send-IsBalanced :
    (now size sequence response_type : ℕ) (sent : Bool) (c : Client)
    → IsBalanced c
    → IsBalanced (send now size sequence response_type sent c)
unfolding send on_send_completed on_send_failed
send-IsBalanced now size sequence response_type sent c h =
    let tracked =
      track_request_lem now sequence response_type c.response_timeout
        (on_send_completed size c.metrics) in
    kept c (send now size sequence response_type sent c) (ground arith)
      (ground (arith, tracked), ground (arith, tracked)) h

receive-IsBalanced :
    (now : ℕ) (r : Received) (c : Client) → IsBalanced c → IsBalanced (receive now r c)
unfolding receive report_failure on_recv_completed on_packet_validation_failed
    on_packet_validation_succeeded
receive-IsBalanced now (failed e) c h = elim (Bool-cases c.connected) [
  | inl on ↦
      rw on (record { balanced = ended now (failure_reason e) c.metrics (balanced_of c h on) })
  | inr off ↦ subst IsBalanced (sym (ap (λ b. if b then report_failure now e c else c) off)) h
]
receive-IsBalanced now nothing c h = h
receive-IsBalanced now (invalid size) c h =
    kept c (receive now (invalid size) c) (ground arith) (ground arith, ground arith) h
receive-IsBalanced now (no_packet size) c h =
    kept c (receive now (no_packet size) c) (ground arith) (ground arith, ground arith) h
receive-IsBalanced now (packet size sequence packet_type) c h =
    let resolved =
      resolve_request_lem now sequence packet_type
        (on_packet_validation_succeeded (on_recv_completed now size c.metrics)) in
    kept c (receive now (packet size sequence packet_type) c) (ground arith)
      (ground (arith, resolved), ground (arith, resolved)) h

run-IsBalanced : (call : Call) (c : Client) → IsBalanced c → IsBalanced (run call c)
unfolding run
run-IsBalanced (connects left_at took now started reached) c h =
    connect-IsBalanced left_at took now started reached c h
run-IsBalanced (disconnects now reason) c h = disconnect-IsBalanced now reason c h
run-IsBalanced (sends now size sequence response_type sent) c h =
    send-IsBalanced now size sequence response_type sent c h
run-IsBalanced (receives now r) c h = receive-IsBalanced now r c h

-- If the connections counted as made are those counted as ended and the one that is there, modulo 2^64,
-- they still are after any calls of the client one after the other, with any answers of the network.
pub run_all-IsBalanced :
    (calls : List Call) (c : Client) → IsBalanced c → IsBalanced (run_all calls c)
unfolding run_all
run_all-IsBalanced [] c h = h
run_all-IsBalanced (call ∷ calls) c h =
    run_all-IsBalanced calls (run call c) (run-IsBalanced call c h)

-- If the receiving thread has seen a failure and the flag, and then Disconnect takes the flag away before
-- the thread goes on, both report the end of the one connection: two disconnects are counted, modulo 2^64.
pub counted_twice :
    (now later : ℕ) (e : NetworkError) (reason : DisconnectReason) (c : Client)
    → c.connected ≡ true
    → let (was, leaving) = begin_disconnect c in
      (finish_disconnect later reason was (report_failure now e leaving)).metrics.disconnect_total
      ≡ (c.metrics.disconnect_total + 2) % 2 ^ 64
unfolding begin_disconnect finish_disconnect report_failure
counted_twice now later e reason c on =
    let first = on_disconnected_lem now (failure_reason e) c.metrics in
    let second =
      on_disconnected_lem later reason (on_disconnected now (failure_reason e) c.metrics) in
    rw on (omega (arith, first.1, second.1))
