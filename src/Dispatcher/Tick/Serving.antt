-- ===== src/Dispatcher/Tick/Serving.antt =====
-- What a tick does with the commands that wait, and which handler it finds.
use highp_mmorpg.Prelude.{
  ℕ, ◌≡◌, refl, ap, subst, inl, inr, List, [], ◌∷◌, none, some, arith, All, Option-cases, ◌==◌,
  if◌then◌else◌,
}
use highp_mmorpg.Dispatcher.Wire.{Flatbuffers}
use highp_mmorpg.Dispatcher.{
  PacketCommand, Dispatcher, drain_to, Result, ok, err, fb_payload_type_not_found,
}
use highp_mmorpg.Dispatcher.Commands.{IsTyped, AllTyped}
use highp_mmorpg.Dispatcher.Tick.{
  DispatchFn, Handlers, find_handler, insert_handler, register_handler, typed_dispatch,
  dispatch_packet, run_command, run_commands, tick,
}

module _ (fb : Flatbuffers) (now : ℕ → ℕ) {World : Type 0} (close_slot : ℕ → World → World) where
  open fb use {Packet, get_packet, payload_type, payload_as}

  -- The commands in turn: each is given to the handler of the type that it was queued with, with the
  -- packet that its bytes are, or, if there is no such handler, closes its client.
  pub data Served (hs : Handlers fb now close_slot)
      : List PacketCommand → World → World → Type 0 where
    done : {w : World} → Served hs [] w w
    handled :
        {cmd : PacketCommand} {cmds : List PacketCommand} {w w' : World} (p : Packet)
        (f : DispatchFn fb now close_slot)
        → get_packet cmd.bytes ≡ some p
        → find_handler fb now close_slot cmd.payload_type hs ≡ some f
        → Served hs cmds (f cmd.client p w) w'
        → Served hs (cmd ∷ cmds) w w'
    dropped :
        {cmd : PacketCommand} {cmds : List PacketCommand} {w w' : World}
        → find_handler fb now close_slot cmd.payload_type hs ≡ none
        → Served hs cmds (close_slot cmd.client w) w'
        → Served hs (cmd ∷ cmds) w w'

  module _ (hs : Handlers fb now close_slot) where
    dispatch_packet-none :
        (type slot : ℕ) (p : Packet) (w : World)
        → payload_type p ≡ type
        → find_handler fb now close_slot type hs ≡ none
        → dispatch_packet fb now close_slot hs slot p w ≡ (err fb_payload_type_not_found, w)
    unfolding dispatch_packet
    dispatch_packet-none type slot p w t e = rw (t, dispatch_packet) (rw e)

    dispatch_packet-some :
        (type slot : ℕ) (p : Packet) (w : World) (f : DispatchFn fb now close_slot)
        → payload_type p ≡ type
        → find_handler fb now close_slot type hs ≡ some f
        → dispatch_packet fb now close_slot hs slot p w ≡ (ok tt, f slot p w)
    unfolding dispatch_packet
    dispatch_packet-some type slot p w f t e = rw (t, dispatch_packet) (rw e)

    run_command_dropped :
        (cmd : PacketCommand) (d : Dispatcher) (w : World)
        → IsTyped fb now cmd
        → find_handler fb now close_slot cmd.payload_type hs ≡ none
        → (run_command fb now close_slot hs cmd d w).1 ≡ close_slot cmd.client w
    unfolding run_command
    run_command_dropped cmd d w (p, good, got, typed) e =
        let none_found = dispatch_packet-none cmd.payload_type cmd.client p w typed e in
        rw (got, run_command)
          (rw none_found
            (ap (λ (r : Result (Unit {0}) × World). close_slot cmd.client r.1) none_found))

    run_command_handled :
        (cmd : PacketCommand) (d : Dispatcher) (w : World) (p : Packet)
        (f : DispatchFn fb now close_slot)
        → get_packet cmd.bytes ≡ some p
        → payload_type p ≡ cmd.payload_type
        → find_handler fb now close_slot cmd.payload_type hs ≡ some f
        → (run_command fb now close_slot hs cmd d w).1 ≡ f cmd.client p w
    unfolding run_command
    run_command_handled cmd d w p f got typed e =
        let found = dispatch_packet-some cmd.payload_type cmd.client p w f typed e in
        rw (got, run_command) (rw found (ap (λ (r : Result (Unit {0}) × World). r.1) found))

    run_commands_serve :
        (cmds : List PacketCommand) (d : Dispatcher) (w : World)
        → All (IsTyped fb now) cmds
        → Served hs cmds w (run_commands fb now close_slot hs cmds d w).1
    unfolding run_commands
    run_commands_serve [] d w h = done
    run_commands_serve (cmd ∷ cmds) d w ((p, good, got, typed), h) =
        let (d', w') = run_command fb now close_slot hs cmd d w in
        let rest = run_commands_serve cmds d' w' h in
        let last = (run_commands fb now close_slot hs cmds d' w').1 in
        elim (Option-cases (find_handler fb now close_slot cmd.payload_type hs)) [
          | inl e ↦ dropped e (
              subst (λ v. Served hs cmds v last)
                (run_command_dropped cmd d w (p, good, got, typed) e) rest)
          | inr (f, e) ↦ handled p f got e (
              subst (λ v. Served hs cmds v last) (run_command_handled cmd d w p f got typed e) rest)
        ]

    -- If every command that waits was parsed when it was queued, a tick serves them all, in the
    -- order of the queue, once each: the bytes of each are parsed again without fail.
    pub tick_serves :
        (d : Dispatcher) (w : World)
        → AllTyped fb now d
        → Served hs d.command_queue.write_queue w (tick fb now close_slot hs d w).1
    unfolding tick drain_to
    tick_serves d w h = run_commands_serve d.command_queue.write_queue _ w h

  find-insert_handler :
      (type t : ℕ) (f : DispatchFn fb now close_slot) (hs : Handlers fb now close_slot)
      → find_handler fb now close_slot t (insert_handler fb now close_slot type f hs)
        ≡ (if type == t then some f else find_handler fb now close_slot t hs)
  unfolding insert_handler find_handler
  find-insert_handler type t f [] = refl
  find-insert_handler type t f ((u, g) ∷ hs) = ground (arith, find-insert_handler type t f hs)

  -- The handler that was registered last for a type is the one that is found for it, behind the
  -- check of the payload, and what is found for the other types stays.
  pub find-register_handler :
      (type t : ℕ) (handle : ℕ → Packet → fb.Payload → World → World)
      (hs : Handlers fb now close_slot)
      → find_handler fb now close_slot t (register_handler fb now close_slot type handle hs) ≡ (
          if type == t
          then some (typed_dispatch fb now close_slot type handle)
          else find_handler fb now close_slot t hs)
  unfolding register_handler
  find-register_handler type t handle hs =
      find-insert_handler type t (typed_dispatch fb now close_slot type handle) hs
