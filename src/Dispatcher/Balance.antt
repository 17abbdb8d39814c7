-- ===== src/Dispatcher/Balance.antt =====
-- The queue-length callbacks agree with the queue.
use highp_mmorpg.Prelude.{
  ℕ, suc, ◌+◌, ◌≡◌, refl, ap, ◌∙◌, inl, inr, List, [], ◌∷◌, ◌++◌, some, arith, length,
  length-append, Option-cases, Bool-cases, ltb,
}
use highp_mmorpg.Client.{Client, ClientEvent, close}
use highp_mmorpg.Frame.Contents.{IsValid}
use highp_mmorpg.Dispatcher.Receiving.{receive_total}
use highp_mmorpg.Dispatcher.Wire.{Flatbuffers}
use highp_mmorpg.Dispatcher.{
  CommandQueue, PacketCommand, Event, validation_succeeded, validation_failed, queue_pushed,
  queue_drained, queue_wait, dispatch_process, client_event, Dispatcher, report, client_events,
  close_client, push, drain_to, push_command, receive,
}
use highp_mmorpg.Dispatcher.Tick.{
  Handlers, run_command, run_commands, tick, report_wait, report_process,
}
use highp_mmorpg.Dispatcher.Commands.{IsKept, receive_kept, at_end}

-- How many commands `onQueuePushed` and `onQueueDrained` were told of.
abbrev pub pushed : List Event → ℕ
pushed [] = 0
pushed (queue_pushed n ∷ es) = n + pushed es
pushed (validation_succeeded ∷ es) = pushed es
pushed (validation_failed ∷ es) = pushed es
pushed (queue_drained n ∷ es) = pushed es
pushed (queue_wait a b ∷ es) = pushed es
pushed (dispatch_process a b ∷ es) = pushed es
pushed (client_event e ∷ es) = pushed es

abbrev pub drained : List Event → ℕ
drained [] = 0
drained (queue_drained n ∷ es) = n + drained es
drained (validation_succeeded ∷ es) = drained es
drained (validation_failed ∷ es) = drained es
drained (queue_pushed n ∷ es) = drained es
drained (queue_wait a b ∷ es) = drained es
drained (dispatch_process a b ∷ es) = drained es
drained (client_event e ∷ es) = drained es

pub pushed-append : (es fs : List Event) → pushed (es ++ fs) ≡ pushed es + pushed fs
pushed-append [] fs = omega arith
pushed-append (queue_pushed n ∷ es) fs = omega (arith, pushed-append es fs)
pushed-append (validation_succeeded ∷ es) fs = pushed-append es fs
pushed-append (validation_failed ∷ es) fs = pushed-append es fs
pushed-append (queue_drained n ∷ es) fs = pushed-append es fs
pushed-append (queue_wait a b ∷ es) fs = pushed-append es fs
pushed-append (dispatch_process a b ∷ es) fs = pushed-append es fs
pushed-append (client_event e ∷ es) fs = pushed-append es fs

pub drained-append : (es fs : List Event) → drained (es ++ fs) ≡ drained es + drained fs
drained-append [] fs = omega arith
drained-append (queue_drained n ∷ es) fs = omega (arith, drained-append es fs)
drained-append (validation_succeeded ∷ es) fs = drained-append es fs
drained-append (validation_failed ∷ es) fs = drained-append es fs
drained-append (queue_pushed n ∷ es) fs = drained-append es fs
drained-append (queue_wait a b ∷ es) fs = drained-append es fs
drained-append (dispatch_process a b ∷ es) fs = drained-append es fs
drained-append (client_event e ∷ es) fs = drained-append es fs

client_events_quiet :
    (es : List ClientEvent) → (pushed (client_events es) ≡ 0) × (drained (client_events es) ≡ 0)
client_events_quiet [] = (refl, refl)
client_events_quiet (e ∷ es) = client_events_quiet es

-- What was pushed has been drained or is in the queue.
abbrev pub IsBalanced : Dispatcher → Type 0
IsBalanced d = pushed d.events ≡ drained d.events + length d.command_queue.write_queue

-- Events of other kinds leave the balance.
report-IsBalanced :
    (d : Dispatcher) (es : List Event)
    → pushed es ≡ 0
    → drained es ≡ 0
    → IsBalanced d
    → IsBalanced (report d es)
report-IsBalanced d es p q b =
    omega (arith, p, q, b, pushed-append d.events es, drained-append d.events es)

push-IsBalanced :
    (d : Dispatcher) (cmd : PacketCommand) (n : ℕ)
    → IsBalanced d
    → IsBalanced (
        report
          (record d { command_queue = push d.command_queue cmd; readings = n })
          (queue_pushed 1 ∷ []))
unfolding push
push-IsBalanced d cmd n b = omega (
  arith,
  b,
  pushed-append d.events (queue_pushed 1 ∷ []),
  drained-append d.events (queue_pushed 1 ∷ []),
  length-append d.command_queue.write_queue (cmd ∷ []),
)

module _ (fb : Flatbuffers) (now : ℕ → ℕ) where
  IsBalanced-IsKept : IsKept fb now IsBalanced
  unfolding push_command push close_client
  IsBalanced-IsKept = record {
    failing = λ d b. report-IsBalanced d _ refl refl b;
    succeeding = λ d b. report-IsBalanced d _ refl refl b;
    closing = λ c d b.
        let (p, q) = client_events_quiet (close c).1 in
        report-IsBalanced d (client_events (close c).1) p q b;
    pushing = λ slot raw p d e b. push-IsBalanced d _ (suc d.readings) b;
  }

  -- On a valid buffer `Receive` returns, and then as many commands were reported to `onQueuePushed`
  -- as to `onQueueDrained` and wait in the queue, if it was so before.
  receive-IsBalanced :
      (slot : ℕ) (bytes : List ℕ) (c : Client) (d : Dispatcher)
      → IsValid c.frame_buf
      → IsBalanced d
      → (c' : Client) × (d' : Dispatcher) × (receive fb now slot bytes c d ≡ some (c', d'))
        × IsBalanced d'
  receive-IsBalanced slot bytes c d v h =
      let (c', d', e) = receive_total fb now slot bytes c d v in
      (c', d', e, at_end IsBalanced (receive_kept fb now IsBalanced-IsKept slot bytes c d h) e)

  wait-IsBalanced :
      (cmd : PacketCommand) (d : Dispatcher)
      → IsBalanced d
      → let d' = report_wait now cmd d in IsBalanced d' × (d'.command_queue ≡ d.command_queue)
  unfolding report_wait
  wait-IsBalanced cmd d b = elim (Bool-cases (ltb 0 cmd.enqueued_at_ns)) [
    | inl e ↦ rw e (
      report-IsBalanced (record d { readings = suc d.readings })
          (queue_wait cmd.enqueued_at_ns (now d.readings) ∷ []) refl refl b,
      refl,
    )
    | inr e ↦ rw e (b, refl)
  ]

  process-IsBalanced : (d : Dispatcher) → IsBalanced d → IsBalanced (report_process now d)
  unfolding report_process
  process-IsBalanced d b =
      report-IsBalanced (record d { readings = suc (suc d.readings) })
        (dispatch_process (now d.readings) (now (suc d.readings)) ∷ []) refl refl b

  module _ {World : Type 0} (close_slot : ℕ → World → World) (hs : Handlers fb now close_slot) where
    -- A command changes no queue.
    run_command-IsBalanced :
        (cmd : PacketCommand) (d : Dispatcher) (w : World)
        → IsBalanced d
        → let d' = (run_command fb now close_slot hs cmd d w).0 in
          IsBalanced d' × (d'.command_queue ≡ d.command_queue)
    unfolding run_command report_process
    run_command-IsBalanced cmd d w b = elim (Option-cases (fb.get_packet cmd.bytes)) [
      | inl e ↦ rw (e, run_command) (wait-IsBalanced cmd d b)
      | inr (p, e) ↦
          let (b', same) = wait-IsBalanced cmd d b in
          rw (e, run_command) (process-IsBalanced (report_wait now cmd d) b', same)
    ]

    run_commands-IsBalanced :
        (cmds : List PacketCommand) (d : Dispatcher) (w : World)
        → IsBalanced d
        → let d' = (run_commands fb now close_slot hs cmds d w).0 in
          IsBalanced d' × (d'.command_queue ≡ d.command_queue)
    unfolding run_commands
    run_commands-IsBalanced [] d w b = (b, refl)
    run_commands-IsBalanced (cmd ∷ cmds) d w b =
        let (b₁, same₁) = run_command-IsBalanced cmd d w b in
        let (d₁, w₁) = run_command fb now close_slot hs cmd d w in
        let (b₂, same₂) = run_commands-IsBalanced cmds d₁ w₁ b₁ in (b₂, same₂ ∙ same₁)

    -- After `Tick` no command waits in the queue, and as many were reported to `onQueuePushed` as to
    -- `onQueueDrained`, if the reports agreed with the queue before.
    pub tick-IsBalanced :
        (d : Dispatcher) (w : World)
        → IsBalanced d
        → let d' = (tick fb now close_slot hs d w).0 in
          IsBalanced d' × (d'.command_queue.write_queue ≡ [])
    unfolding tick drain_to
    tick-IsBalanced d w b =
        let queue = d.command_queue.write_queue in
        let d₁ =
          report (record d { command_queue = record { write_queue = [] }; tick_batch = queue })
            (queue_drained (length queue) ∷ []) in
        let b₁ : IsBalanced d₁ = omega (
          arith,
          b,
          pushed-append d.events (queue_drained (length queue) ∷ []),
          drained-append d.events (queue_drained (length queue) ∷ []),
        ) in
        let (b₂, same) = run_commands-IsBalanced queue d₁ w b₁ in
        (b₂, ap (λ (q : CommandQueue PacketCommand). q.write_queue) same)
