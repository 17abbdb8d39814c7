-- ===== src/Metrics/Gauges.antt =====
-- The gauges over what the packet dispatcher reports.
use highp_mmorpg.Prelude.{
  ℕ, ◌+◌, ◌-◌, ◌%◌, ◌^◌, ◌<◌, ◌≡◌, refl, leb, if◌then◌else◌, List, [], ◌∷◌, arith, length,
}
use highp_mmorpg.Client.{ClientEvent}
use highp_mmorpg.Dispatcher.{
  Event, Dispatcher, client_event, validation_succeeded, validation_failed,
}
use highp_mmorpg.Dispatcher.Balance.{pushed, drained, pushed-append, drained-append, IsBalanced}
use highp_mmorpg.Metrics.{ServerMetrics, Report, Duration, nanoseconds, below_zero, on_report}

-- `end - begin` on the clock.
abbrev pub between : ℕ → ℕ → Duration
between begin end = if leb begin end then nanoseconds (end - begin) else below_zero

-- The callback of the metrics for each of a client's events.
abbrev pub client_report : ClientEvent → Report
client_report ClientEvent.connected = Report.client_connected
client_report ClientEvent.disconnected = Report.client_disconnected
client_report ClientEvent.recv_posted = Report.recv_posted
client_report ClientEvent.recv_post_failed = Report.recv_post_failed
client_report ClientEvent.send_posted = Report.send_posted
client_report ClientEvent.send_post_failed = Report.send_post_failed

-- The callback of the metrics for each of the dispatcher's events.
abbrev pub dispatcher_report : Event → Report
dispatcher_report validation_succeeded = Report.packet_validation_succeeded
dispatcher_report validation_failed = Report.packet_validation_failed
dispatcher_report (Event.queue_pushed n) = Report.queue_pushed n
dispatcher_report (Event.queue_drained n) = Report.queue_drained n
dispatcher_report (Event.queue_wait begin end) = Report.queue_wait (between begin end)
dispatcher_report (Event.dispatch_process begin end) = Report.dispatch_process (between begin end)
dispatcher_report (client_event e) = client_report e

unfoldable pub on_events : List Event → ServerMetrics → ServerMetrics
on_events [] m = m
on_events (e ∷ es) m = on_events es (on_report (dispatcher_report e) m)

on_event_lem :
    (e : Event) (m : ServerMetrics)
    → ((on_report (dispatcher_report e) m).dispatcher_queue_length + drained (e ∷ [])) % 2 ^ 64
      ≡ (m.dispatcher_queue_length + pushed (e ∷ [])) % 2 ^ 64
unfolding on_report
on_event_lem validation_succeeded m = refl
on_event_lem validation_failed m = refl
on_event_lem (Event.queue_pushed n) m = omega arith
on_event_lem (Event.queue_drained n) m = omega arith
on_event_lem (Event.queue_wait begin end) m = refl
on_event_lem (Event.dispatch_process begin end) m = refl
on_event_lem (client_event ClientEvent.connected) m = refl
on_event_lem (client_event ClientEvent.disconnected) m = refl
on_event_lem (client_event ClientEvent.recv_posted) m = refl
on_event_lem (client_event ClientEvent.recv_post_failed) m = refl
on_event_lem (client_event ClientEvent.send_posted) m = refl
on_event_lem (client_event ClientEvent.send_post_failed) m = refl

on_event_bound :
    (e : Event) (m : ServerMetrics)
    → m.dispatcher_queue_length < 2 ^ 64
    → (on_report (dispatcher_report e) m).dispatcher_queue_length < 2 ^ 64
unfolding on_report
on_event_bound validation_succeeded m h = h
on_event_bound validation_failed m h = h
on_event_bound (Event.queue_pushed n) m h = omega arith
on_event_bound (Event.queue_drained n) m h = omega arith
on_event_bound (Event.queue_wait begin end) m h = h
on_event_bound (Event.dispatch_process begin end) m h = h
on_event_bound (client_event ClientEvent.connected) m h = h
on_event_bound (client_event ClientEvent.disconnected) m h = h
on_event_bound (client_event ClientEvent.recv_posted) m h = h
on_event_bound (client_event ClientEvent.recv_post_failed) m h = h
on_event_bound (client_event ClientEvent.send_posted) m h = h
on_event_bound (client_event ClientEvent.send_post_failed) m h = h

on_events_lem :
    (es : List Event) (m : ServerMetrics)
    → m.dispatcher_queue_length < 2 ^ 64
    → let m' = on_events es m in
      (m'.dispatcher_queue_length < 2 ^ 64)
      × ((m'.dispatcher_queue_length + drained es) % 2 ^ 64
          ≡ (m.dispatcher_queue_length + pushed es) % 2 ^ 64)
unfolding on_events
on_events_lem [] m h = (h, refl)
on_events_lem (e ∷ es) m h =
    let later = on_events_lem es (on_report (dispatcher_report e) m) (on_event_bound e m h) in
    (
      later.0,
      omega
          (arith, later.1, on_event_lem e m, pushed-append (e ∷ []) es, drained-append (e ∷ []) es),
    )

-- The gauge `dispatcherQueueLength` shows, modulo 2 ^ 64, how many commands wait, once it has been
-- told of all the dispatcher's events in their order: if those agree with the queue, and the gauge
-- began at 0.
pub on_events-IsBalanced :
    (d : Dispatcher) (m : ServerMetrics)
    → IsBalanced d
    → m.dispatcher_queue_length ≡ 0
    → (on_events d.events m).dispatcher_queue_length ≡ length d.command_queue.write_queue % 2 ^ 64
on_events-IsBalanced d m b start = omega (arith, b, on_events_lem d.events m (omega arith))
