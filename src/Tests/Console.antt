-- ===== src/Tests/Console.antt =====
-- The chat client and its console.
use highp_mmorpg.Prelude.{◌+◌, ◌%◌, ◌^◌, ◌≡◌, refl, true, false, List, [], ◌∷◌}
use highp_mmorpg.NetworkError.{wsa_recv_failed}
use highp_mmorpg.Metrics.Client.{local_close}
use highp_mmorpg.Tests.Data.{quiet}
use highp_mmorpg.Config.Text.{Text, codes}
use highp_mmorpg.ChatClient.{
  Client, absent, begin_disconnect, finish_disconnect, report_failure, failed, packet,
}
use highp_mmorpg.ChatClient.Sessions.{
  Call, connects, disconnects, sends, receives, run_all, IsBalanced, run_all-IsBalanced,
  counted_twice,
}
use highp_mmorpg.ChatClient.Cli.{Cli, Network, run}
use highp_mmorpg.ChatClient.Orderly.{view, IsOrderly, run-IsOrderly}

abbrev client : Client
client = record {
  connected = false;
  socket = absent;
  next_sequence = 1;
  response_timeout = 5000;
  metrics = quiet;
}

-- A connection that carries a packet each way and breaks off, and one that is left.
abbrev calls : List Call
calls =
    connects 0 3 10 true true
    ∷ sends 11 40 1 100 true
    ∷ receives 12 (packet 52 1 100)
    ∷ receives 13 (failed wsa_recv_failed)
    ∷ connects 0 3 20 true true
    ∷ disconnects 30 local_close
    ∷ []

run_all-IsBalanced_example : IsBalanced (run_all calls client)
run_all-IsBalanced_example = run_all-IsBalanced calls client (record { balanced = refl })

counted_twice_example :
    let c = record client { connected = true } in
    (finish_disconnect 8 local_close true
      (report_failure 7 wsa_recv_failed (begin_disconnect c).1)).metrics.disconnect_total
    ≡ (c.metrics.disconnect_total + 2) % 2 ^ 64
unfolding begin_disconnect
counted_twice_example =
    counted_twice 7 8 wsa_recv_failed local_close (record client { connected = true }) refl

abbrev console : Cli
console = record { client = client; nickname = codes "kim"; joined = false; requests = [] }

abbrev network : Network
network = record { now = λ r. 5; size = λ r. 48; sent = λ r. true }

-- A message too early, a stay in the room with a message, and a word that is no command.
abbrev lines : List Text
lines =
    codes "hello"
    ∷ codes "/join"
    ∷ codes "/join"
    ∷ codes "hello"
    ∷ codes "/leave"
    ∷ codes "/who"
    ∷ codes "/join"
    ∷ codes "/quit"
    ∷ codes "hello"
    ∷ []

console-IsOrderly : IsOrderly 1 console
unfolding IsOrderly view
console-IsOrderly = refl

run-IsOrderly_example : IsOrderly 1 (run network lines console)
run-IsOrderly_example = run-IsOrderly network 1 lines console console-IsOrderly
