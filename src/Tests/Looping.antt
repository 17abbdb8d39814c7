-- ===== src/Tests/Looping.antt =====
-- The game loop, with a command that waits and a packet that comes in.
use highp_mmorpg.Prelude.{◌≡◌, refl, false, List, [], ◌∷◌, ◌++◌}
use highp_mmorpg.Client.{Client}
use highp_mmorpg.Dispatcher.{PacketCommand}
use highp_mmorpg.Chat.Loop.{GameLoop, stop, finish}
use highp_mmorpg.Chat.Loop.Serving.{queue, Accepts, receive-Accepts}
use highp_mmorpg.Chat.Loop.Runs.{Worked, Runs, ended, receives, stops, changes, finish_serves}
use highp_mmorpg.Tests.Data.{
  busy, note_close, handlers, first_byte, clock, connected_client, fresh-IsValid,
}

abbrev loop : GameLoop
loop = record { dispatcher = busy; tick_ms = 50; has_stopped = false; reports = [] }

-- A packet of type 9 on slot 3.
accepted :
    (cmds : List PacketCommand) × (c' : Client) × (g' : GameLoop) × Accepts first_byte clock
      (0 ∷ 0 ∷ 0 ∷ 1 ∷ 9 ∷ [])
      3
      connected_client
      loop
      cmds
      c'
      g'
accepted =
    receive-Accepts first_byte clock 3 (0 ∷ 0 ∷ 0 ∷ 1 ∷ 9 ∷ []) connected_client loop fresh-IsValid

-- The packet comes in, another thread closes slot 8, and the loop is stopped.
runs :
    Runs first_byte clock note_close handlers loop []
      (accepted.0 ++ [])
      (note_close 8 ∷ [])
      (stop accepted.2)
      (8 ∷ [])
runs =
    let (cmds, c', g', a) = accepted in
    receives g' cmds 3 (0 ∷ 0 ∷ 0 ∷ 1 ∷ 9 ∷ []) connected_client c' fresh-IsValid a.answers a.grows
      (changes (note_close 8) (stops ended))

finish_serves_example :
    let (last, w) = finish first_byte clock note_close handlers (stop accepted.2) (8 ∷ []) in
    Worked first_byte clock note_close handlers
      (queue loop ++ (accepted.0 ++ []))
      (note_close 8 ∷ [])
      []
      w
    × (queue last ≡ [])
finish_serves_example =
    finish_serves first_byte clock note_close handlers loop (stop accepted.2) [] (8 ∷ [])
      (accepted.0 ++ []) (note_close 8 ∷ []) ((9, refl, refl, refl), tt) runs
