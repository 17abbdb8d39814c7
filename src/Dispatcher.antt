-- ===== src/Dispatcher.antt =====
-- network/src/server/PacketDispatcher.cpp and network/inc/server/PacketDispatcher.hpp, over the
-- queue of lib/inc/concurrency/MPSCCommandQueue.hpp. A worker thread assembles frames and queues
-- commands; the logic thread drains the queue and calls the handlers.
pub mod Receiving
pub mod Cuts
pub mod Outcome
pub mod Wire
pub mod Decode
pub mod Assembly
pub mod Feed
pub mod Limits
pub mod Tick
pub mod Commands
pub mod Balance
use highp_mmorpg.Prelude.{
  ℕ, zero, suc, ◌+◌, ◌-◌, ◌<◌, Bool, true, false, List, [], ◌∷◌, ◌++◌, Option, none, some, ltb,
  ◌==◌, if◌then◌else◌, length, take, drop,
}
use highp_mmorpg.Frame.{
  FrameBuffer, max_frame_size, header_size, decode_header, append, contents, consume,
}
use highp_mmorpg.Client.{Client, ClientEvent, close}
use Wire.{Flatbuffers}

-- `PacketCommand`; the client is known by its slot.
pub record PacketCommand : Type 0 where
  pub client : ℕ
  pub payload_type : ℕ
  pub bytes : List ℕ
  pub enqueued_at_ns : ℕ

-- `PacketDispatcherCallbacks`, and the callbacks of a client that the dispatcher closes.
pub data Event : Type 0 where
  validation_succeeded validation_failed : Event
  queue_pushed queue_drained : ℕ → Event
  -- The two readings of the clock that the duration lies between.
  queue_wait dispatch_process : ℕ → ℕ → Event
  client_event : ClientEvent → Event

-- `MPSCCommandQueue`: `_writeQueue`, oldest first.
pub record CommandQueue {ℓ} (A : Type ℓ) : Type ℓ where
  pub write_queue : List A

module _ {ℓ} {A : Type ℓ} where
  -- `MPSCCommandQueue::Push`
  unfoldable pub push : CommandQueue A → A → CommandQueue A
  push q item = record { write_queue = q.write_queue ++ item ∷ [] }

  -- `MPSCCommandQueue::DrainTo`: `out` is cleared, then swapped with the queue.
  unfoldable pub drain_to : CommandQueue A → List A → CommandQueue A × List A
  drain_to q out = let cleared : List A = [] in (record { write_queue = cleared }, q.write_queue)

  -- `MPSCCommandQueue::Empty`
  unfoldable pub is_empty : CommandQueue A → Bool
  is_empty q = elim q.write_queue [ [] ↦ true | _ ∷ _ ↦ false ]

-- The dispatcher's own state, with the events it has reported, oldest first, and the number of
-- times it has read the clock.
pub record Dispatcher : Type 0 where
  pub command_queue : CommandQueue PacketCommand
  pub tick_batch : List PacketCommand
  pub events : List Event
  pub readings : ℕ

abbrev pub report : Dispatcher → List Event → Dispatcher
report d es = record d { events = d.events ++ es }

abbrev pub client_events : List ClientEvent → List Event
client_events [] = []
client_events (e ∷ es) = client_event e ∷ client_events es

-- `client->Close(true)` on a path of the dispatcher.
unfoldable pub close_client : Client → Dispatcher → Client × Dispatcher
unfolding close
close_client c d = let (c', es) = close c in (c', report d (client_events es))

-- `EPacketError`
pub data PacketError : Type 0 where
  unknown : PacketError
  fb_failed_verify fb_failed_serialize fb_get_packet fb_failed_deserialize : PacketError
  fb_payload_type_not_found : PacketError

pub data Result {ℓ} (A : Type ℓ) : Type ℓ where
  ok : A → Result A
  err : PacketError → Result A

-- `now` is the clock, by the number of the reading; `fb` is the generated flatbuffers code.
module _ (fb : Flatbuffers) (now : ℕ → ℕ) where
  open fb use {Packet, verify, get_packet, payload_type}

  -- `PacketDispatcher::ParsePacket`
  unfoldable pub parse_packet : List ℕ → Result Packet
  parse_packet bytes =
      if verify bytes
      then elim (get_packet bytes) [ none ↦ err fb_get_packet | some p ↦ ok p ]
      else err fb_failed_verify

  -- Whether the payload of a frame is a packet.
  abbrev pub is_packet : List ℕ → Bool
  is_packet bytes = elim (parse_packet bytes) [ ok _ ↦ true | err _ ↦ false ]

  -- `PacketDispatcher::PushCommand`
  unfoldable pub push_command : ℕ → ℕ → List ℕ → Dispatcher → Dispatcher
  unfolding push
  push_command slot type raw d =
      report (record d { command_queue = push d.command_queue cmd; readings = suc d.readings })
        (queue_pushed 1 ∷ [])
    where
      cmd : PacketCommand
      cmd = record {
        client = slot;
        payload_type = type;
        bytes = raw;
        enqueued_at_ns = now d.readings;
      }

  -- One complete frame: parse its payload, queue it or close the client, and (`DEFER`) consume
  -- the frame on the way out of the scope. The flag tells whether the loop goes on.
  unfoldable pub take_frame : ℕ → List ℕ → ℕ → Client → Dispatcher → Bool × Client × Dispatcher
  unfolding parse_packet push_command close_client
  take_frame slot payload frame_size c d = elim (parse_packet payload) [
    | err _ ↦
        let (c', d') = close_client c (report d (validation_failed ∷ [])) in
        (false, record c' { frame_buf = consume c'.frame_buf frame_size }, d')
    | ok packet ↦ (
      true,
      record c { frame_buf = consume c.frame_buf frame_size },
      push_command slot (payload_type packet) payload (report d (validation_succeeded ∷ [])),
    )
  ]

  -- The loop of `PacketDispatcher::Receive`, on fuel; `none` means that the fuel ran out.
  unfoldable pub assemble : ℕ → ℕ → Client → Dispatcher → Option (Client × Dispatcher)
  unfolding take_frame contents
  assemble slot zero c d = none
  assemble slot (suc fuel) c d =
      let buf = contents c.frame_buf in
      let payload_len = decode_header buf in
      let frame_size = header_size + payload_len in
      let payload = take payload_len (drop header_size buf) in
      let (more, c', d') = take_frame slot payload frame_size c d in
      let rest = assemble slot fuel c' d' in
      if ltb (length buf) header_size
      then some (c, d)
      else if ltb max_frame_size payload_len
      then some (close_client c (report d (validation_failed ∷ [])))
      else if ltb (length buf) frame_size
      then some (c, d)
      else if more
      then rest
      else some (c', d')

  -- `PacketDispatcher::Receive`. Each round of the loop consumes a header at least.
  unfoldable pub receive : ℕ → List ℕ → Client → Dispatcher → Option (Client × Dispatcher)
  unfolding assemble append
  receive slot bytes c d =
      let (taken, buf) = append c.frame_buf bytes in
      let c' = record c { frame_buf = buf } in
      if taken
      then assemble slot (suc (length (contents buf))) c' d
      else some (close_client c' (report d (validation_failed ∷ [])))

  -- The calls of `Receive` for the pieces in which a connection's bytes arrive.
  unfoldable pub receive_all :
      ℕ → List (List ℕ) → Client → Dispatcher → Option (Client × Dispatcher)
  receive_all slot [] c d = some (c, d)
  receive_all slot (piece ∷ pieces) c d = elim (receive slot piece c d) [
    | none ↦ none
    | some (c', d') ↦ receive_all slot pieces c' d'
  ]
