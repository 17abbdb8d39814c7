-- ===== src/Chat/Loop/Runs.antt =====
-- The logic thread among the threads that call `Receive`: Chat/Loop.antt.
use highp_mmorpg.Prelude.{
  ℕ, ◌≡◌, refl, sym, ap, subst, ◌∙◌, List, [], ◌∷◌, ◌++◌, some, arith, append_assoc, All,
}
use highp_mmorpg.Client.{Client}
use highp_mmorpg.Frame.Contents.{IsValid}
use highp_mmorpg.Dispatcher.Wire.{Flatbuffers}
use highp_mmorpg.Dispatcher.{PacketCommand, Dispatcher, drain_to}
use highp_mmorpg.Dispatcher.Commands.{AllTyped, IsTyped}
use highp_mmorpg.Dispatcher.Tick.{
  Handlers, tick, run_command, run_commands, report_wait, report_process,
}
use highp_mmorpg.Dispatcher.Tick.Serving.{Served, tick_serves}
use highp_mmorpg.Chat.Loop.{GameLoop, stop, receive, update_round, finish}
use highp_mmorpg.Chat.Loop.Serving.{queue, receive-Accepts}

receive-AllTyped :
    (fb : Flatbuffers) (now : ℕ → ℕ) (slot : ℕ) (bytes : List ℕ) (c c' : Client) (g g' : GameLoop)
    → IsValid c.frame_buf
    → receive fb now slot bytes c g ≡ some (c', g')
    → AllTyped fb now g.dispatcher
    → AllTyped fb now g'.dispatcher
receive-AllTyped fb now slot bytes c c' g g' v e h =
    let (cmds, c'', g'', a) = receive-Accepts fb now slot bytes c g v in
    let same : g'' ≡ g' = ground (arith, a.answers, e) in
    subst (λ (x : GameLoop). AllTyped fb now x.dispatcher) same (a.typed h)

module _ (fb : Flatbuffers) (now : ℕ → ℕ) {World : Type 0} (close_slot : ℕ → World → World)
    (hs : Handlers fb now close_slot) where
  -- The commands are served in turn, and the given changes happen in turn, each one between two commands;
  -- nothing else touches the world.
  pub data Worked : List PacketCommand → List (World → World) → World → World → Type 0 where
    done : {w : World} → Worked [] [] w w
    others :
        {cmds : List PacketCommand} {changes : List (World → World)} {w w' : World}
        (change : World → World)
        → Worked cmds changes (change w) w'
        → Worked cmds (change ∷ changes) w w'
    served :
        (cmds : List PacketCommand) {cmds' : List PacketCommand} {changes : List (World → World)}
        {w w₁ w₂ : World}
        → Served fb now close_slot hs cmds w w₁
        → Worked cmds' changes w₁ w₂
        → Worked (cmds ++ cmds') changes w w₂

  -- The loop from one state to another, with the commands that were queued on the way and the changes of
  -- the world by other threads: rounds of the logic thread, calls of Receive on any client, Stop, and these
  -- changes, one after the other.
  pub data Runs
      : GameLoop
        → World
        → List PacketCommand
        → List (World → World)
        → GameLoop
        → World
        → Type 0 where
    ended : {g : GameLoop} {w : World} → Runs g w [] [] g w
    rounds :
        {g g' : GameLoop} {w w' : World} {cmds : List PacketCommand} {chs : List (World → World)}
        (began over : ℕ)
        → Runs
            (update_round fb now close_slot hs began over g w).1
            (update_round fb now close_slot hs began over g w).2
            cmds
            chs
            g'
            w'
        → Runs g w cmds chs g' w'
    receives :
        {g g' : GameLoop} {w w' : World} {cmds' : List PacketCommand} {chs : List (World → World)}
        (g₁ : GameLoop) (cmds : List PacketCommand) (slot : ℕ) (bytes : List ℕ) (c c' : Client)
        → IsValid c.frame_buf
        → receive fb now slot bytes c g ≡ some (c', g₁)
        → queue g₁ ≡ queue g ++ cmds
        → Runs g₁ w cmds' chs g' w'
        → Runs g w (cmds ++ cmds') chs g' w'
    stops :
        {g g' : GameLoop} {w w' : World} {cmds : List PacketCommand} {chs : List (World → World)}
        → Runs (stop g) w cmds chs g' w'
        → Runs g w cmds chs g' w'
    changes :
        {g g' : GameLoop} {w w' : World} {cmds : List PacketCommand} {chs : List (World → World)}
        (change : World → World)
        → Runs g (change w) cmds chs g' w'
        → Runs g w cmds (change ∷ chs) g' w'

  run_command-queue :
      (cmd : PacketCommand) (d : Dispatcher) (w : World)
      → (run_command fb now close_slot hs cmd d w).0.command_queue ≡ d.command_queue
  unfolding run_command report_wait report_process
  run_command-queue cmd d w = ground arith

  run_commands-queue :
      (cmds : List PacketCommand) (d : Dispatcher) (w : World)
      → (run_commands fb now close_slot hs cmds d w).0.command_queue ≡ d.command_queue
  unfolding run_commands
  run_commands-queue [] d w = refl
  run_commands-queue (cmd ∷ cmds) d w =
      let (d', w') = run_command fb now close_slot hs cmd d w in
      run_commands-queue cmds d' w' ∙ run_command-queue cmd d w

  tick-queue :
      (d : Dispatcher) (w : World)
      → (tick fb now close_slot hs d w).0.command_queue.write_queue ≡ []
  unfolding tick drain_to
  tick-queue d w = ap (λ q. q.write_queue) (run_commands-queue d.command_queue.write_queue _ w)

  stop-dispatcher : (g : GameLoop) → (stop g).dispatcher ≡ g.dispatcher
  unfolding stop
  stop-dispatcher g = ground arith

  finish_serves_now :
      (g : GameLoop) (w : World)
      → AllTyped fb now g.dispatcher
      → let (last, w') = finish fb now close_slot hs g w in
        Worked (queue g ++ []) [] w w' × (queue last ≡ [])
  unfolding finish
  finish_serves_now g w h = (
    served (queue g) (tick_serves fb now close_slot hs g.dispatcher w h) done,
    tick-queue g.dispatcher w,
  )

  update_round-AllTyped :
      (began over : ℕ) (g : GameLoop) (w : World)
      → AllTyped fb now (update_round fb now close_slot hs began over g w).1.dispatcher
  unfolding update_round
  update_round-AllTyped began over g w =
      subst (All (IsTyped fb now)) (sym (tick-queue g.dispatcher w)) tt

  -- A round serves what waits, before all that is served behind it.
  update_round_serves :
      (began over : ℕ) (g : GameLoop) (w w' : World) (cmds : List PacketCommand)
      (chs : List (World → World))
      → AllTyped fb now g.dispatcher
      → Worked
          (queue (update_round fb now close_slot hs began over g w).1 ++ cmds)
          chs
          (update_round fb now close_slot hs began over g w).2
          w'
      → Worked (queue g ++ cmds) chs w w'
  unfolding update_round
  update_round_serves began over g w w' cmds chs h work =
      served (queue g) (tick_serves fb now close_slot hs g.dispatcher w h) (
        subst (λ q. Worked (q ++ cmds) chs (tick fb now close_slot hs g.dispatcher w).1 w')
          (tick-queue g.dispatcher w) work)

  -- From a loop whose queued commands were all parsed, whatever rounds, calls and changes come one after
  -- the other: after the last tick of the logic thread, the queue is empty, and all commands that waited
  -- at first or were queued since have been served, in the order in which they were queued, once each, with
  -- the changes of the other threads in their order in between, and no other change of the world. A round is
  -- one step here.
  pub finish_serves :
      (g g' : GameLoop) (w w' : World) (cmds : List PacketCommand) (chs : List (World → World))
      → AllTyped fb now g.dispatcher
      → Runs g w cmds chs g' w'
      → let (last, w'') = finish fb now close_slot hs g' w' in
        Worked (queue g ++ cmds) chs w w'' × (queue last ≡ [])
  finish_serves g _ w _ _ _ h ended = finish_serves_now g w h
  finish_serves g g' w w' cmds chs h (rounds began over r) =
      let (_, g₁, w₁) = update_round fb now close_slot hs began over g w in
      let (work, empty) =
        finish_serves g₁ g' w₁ w' cmds chs (update_round-AllTyped began over g w) r in
      (
        update_round_serves began over g w (finish fb now close_slot hs g' w').1 cmds chs h work,
        empty,
      )
  finish_serves g g' w w' _ chs h (receives {cmds' = cmds'} g₁ cmds slot bytes c c' v e grown r) =
      let (work, empty) =
        finish_serves g₁ g' w w' cmds' chs (receive-AllTyped fb now slot bytes c c' g g₁ v e h) r in
      (
        subst (λ q. Worked q chs w (finish fb now close_slot hs g' w').1)
            (ap (λ q. q ++ cmds') grown ∙ append_assoc (queue g) cmds cmds') work,
        empty,
      )
  finish_serves g g' w w' cmds chs h (stops r) =
      let same = stop-dispatcher g in
      let (work, empty) =
        finish_serves (stop g) g' w w' cmds chs (subst (AllTyped fb now) (sym same) h) r in
      (
        subst
            (λ (d : Dispatcher).
              Worked (d.command_queue.write_queue ++ cmds) chs w
                (finish fb now close_slot hs g' w').1)
            same work,
        empty,
      )
  finish_serves g g' w w' cmds _ h (changes {chs = chs} change r) =
      let (work, empty) = finish_serves g g' (change w) w' cmds chs h r in
      (others change work, empty)
