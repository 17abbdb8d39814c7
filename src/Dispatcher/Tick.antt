-- ===== src/Dispatcher/Tick.antt =====
-- `PacketDispatcher::RegisterHandler`, `DispatchPacket` and `Tick`: the logic thread's side.
pub mod Serving
use highp_mmorpg.Prelude.{
  ℕ, suc, ◌<◌, Bool, true, false, List, [], ◌∷◌, ◌++◌, Option, none, some, ltb, ◌==◌, if◌then◌else◌,
  length,
}
use highp_mmorpg.Dispatcher.Wire.{Flatbuffers}
use highp_mmorpg.Dispatcher.{
  PacketCommand, Event, queue_drained, queue_wait, dispatch_process, Dispatcher, report, drain_to,
  Result, ok, err, fb_payload_type_not_found,
}

module _ (now : ℕ → ℕ) where
  -- The clock is read once where the wait of a command is reported.
  unfoldable pub report_wait : PacketCommand → Dispatcher → Dispatcher
  report_wait cmd d =
      if ltb 0 cmd.enqueued_at_ns
      then report (record d { readings = suc d.readings })
          (queue_wait cmd.enqueued_at_ns (now d.readings) ∷ [])
      else d

  -- The clock is read before and after the handler.
  unfoldable pub report_process : Dispatcher → Dispatcher
  report_process d =
      report (record d { readings = suc (suc d.readings) })
        (dispatch_process (now d.readings) (now (suc d.readings)) ∷ [])

-- `World` is what the handlers act on, the clients included; `close_slot` is `client->Close(true)`.
module _ (fb : Flatbuffers) (now : ℕ → ℕ) {World : Type 0} (close_slot : ℕ → World → World) where
  open fb use {Packet, Payload, get_packet, payload_type, payload_as}

  -- `DispatchFn`
  abbrev pub DispatchFn : Type 0
  DispatchFn = ℕ → Packet → World → World

  -- `_handlers`, by the number of the payload type.
  abbrev pub Handlers : Type 0
  Handlers = List (ℕ × DispatchFn)

  unfoldable pub find_handler : ℕ → Handlers → Option DispatchFn
  find_handler type [] = none
  find_handler type ((t, f) ∷ hs) = if t == type then some f else find_handler type hs

  unfoldable pub insert_handler : ℕ → DispatchFn → Handlers → Handlers
  insert_handler type f [] = (type, f) ∷ []
  insert_handler type f ((t, g) ∷ hs) =
      if t == type then (t, f) ∷ hs else (t, g) ∷ insert_handler type f hs

  -- The function that `RegisterHandler` stores: it calls the handler if the packet has a payload of
  -- the type.
  unfoldable pub typed_dispatch : ℕ → (ℕ → Packet → Payload → World → World) → DispatchFn
  typed_dispatch type handle slot packet w = elim (payload_as packet type) [
    | none ↦ w
    | some payload ↦ handle slot packet payload w
  ]

  -- `PacketDispatcher::RegisterHandler`, at the handler for the payload type.
  unfoldable pub register_handler : ℕ → (ℕ → Packet → Payload → World → World) → Handlers → Handlers
  register_handler type handle hs = insert_handler type (typed_dispatch type handle) hs

  -- `PacketDispatcher::DispatchPacket`
  unfoldable pub dispatch_packet : Handlers → ℕ → Packet → World → Result (Unit {0}) × World
  dispatch_packet hs slot packet w = elim (find_handler (payload_type packet) hs) [
    | none ↦ (err fb_payload_type_not_found, w)
    | some f ↦ (ok tt, f slot packet w)
  ]

  -- One round of the loop of `Tick`.
  unfoldable pub run_command : Handlers → PacketCommand → Dispatcher → World → Dispatcher × World
  run_command hs cmd d w = elim (get_packet cmd.bytes) [
    | none ↦ (report_wait now cmd d, w)
    | some packet ↦
        let (result, w') = dispatch_packet hs cmd.client packet w in
        (
          report_process now (report_wait now cmd d),
          elim result [ ok _ ↦ w' | err _ ↦ close_slot cmd.client w' ],
        )
  ]

  unfoldable pub run_commands :
      Handlers → List PacketCommand → Dispatcher → World → Dispatcher × World
  run_commands hs [] d w = (d, w)
  run_commands hs (cmd ∷ cmds) d w =
      let (d', w') = run_command hs cmd d w in run_commands hs cmds d' w'

  -- `PacketDispatcher::Tick`
  unfoldable pub tick : Handlers → Dispatcher → World → Dispatcher × World
  tick hs d w =
      let (queue, batch) = drain_to d.command_queue d.tick_batch in
      run_commands hs batch
        (report (record d { command_queue = queue; tick_batch = batch })
          (queue_drained (length batch) ∷ []))
        w
