-- ===== src/Tests/Ports.antt =====
-- The completion port, with two workers, and a listener.
use highp_mmorpg.Prelude.{
  All, length, ◌+◌, ◌≤◌, ◌<◌, ◌≡◌, ◌⊎◌, refl, true, false, List, [], ◌∷◌, none, some, arith, tally,
  pick,
}
use highp_mmorpg.Acceptor.{recv, send}
use highp_mmorpg.Sockets.{Winsock, make_default_listener}
use highp_mmorpg.Sockets.Listening.{Outcome, make_default_listener-Outcome}
use highp_mmorpg.Multiplexer.{
  Packet, Multiplexer, initialize, shutdown, work, Work, takes, advances, work_step, Step,
  initializes, posts, arrives, wakes, works, step, run, fresh,
}
use highp_mmorpg.Multiplexer.Working.{handed, in_hand, expected, come_all, Paired}
use highp_mmorpg.Multiplexer.Manned.{alive}
use highp_mmorpg.Multiplexer.Leaving.{AreAborted, work_all, take_count, workers_lost}
use highp_mmorpg.Multiplexer.Ending.{remaining, is_ending, shutdown_ends}
use highp_mmorpg.Multiplexer.Serving.{to_serve, run_serves}

abbrev received : Packet
received = record {
  completion_key = 40;
  overlapped = some (1, recv);
  bytes_transferred = 12;
  error = none;
}

-- ERROR_OPERATION_ABORTED
abbrev cancelled : Packet
cancelled = record {
  completion_key = 41;
  overlapped = some (2, recv);
  bytes_transferred = 0;
  error = some 995;
}

-- ERROR_NETNAME_DELETED
abbrev broken : Packet
broken = record {
  completion_key = 42;
  overlapped = some (3, send);
  bytes_transferred = 0;
  error = some 64;
}

-- Two workers wait.
abbrev port : List Packet → Multiplexer
port packets = record {
  is_running = true;
  threads = 2;
  to_wake = 0;
  waiting = 2;
  busy = [];
  packets = packets;
  events = [];
}

-- Both workers have a packet at once, and the handler is called for the second one first; an aborted
-- operation makes a worker leave.
abbrev steps : List Step
steps =
    initializes true 2
    ∷ works (advances 0)
    ∷ works (advances 0)
    ∷ arrives received
    ∷ posts true broken
    ∷ works takes
    ∷ works takes
    ∷ works (advances 0)
    ∷ works (advances 0)
    ∷ works (advances 1)
    ∷ arrives cancelled
    ∷ []

run_serves_example :
    let m = run steps fresh in
    (tally (handed (λ e. e.success)) m.events
        + (tally (in_hand (λ e. e.success)) m.busy + tally (expected (λ e. e.success)) m.packets)
      ≡ come_all (λ e. e.success) steps)
    × Paired m
    × ((alive m ≡ 0)
        ⊎ (((m.packets ≡ []) × (m.busy ≡ []))
            ⊎ ((w : Work) × (to_serve (work_step w m) < to_serve m))))
run_serves_example = run_serves (λ e. e.success) steps

aborted : AreAborted (cancelled ∷ cancelled ∷ [])
unfolding AreAborted
aborted = (refl, (refl, tt))

takes_enough : 2 ≤ take_count (takes ∷ advances 0 ∷ takes ∷ takes ∷ [])
unfolding take_count
takes_enough = omega arith

workers_lost_example :
    work_all
      (takes ∷ advances 0 ∷ takes ∷ takes ∷ [])
      (port (cancelled ∷ cancelled ∷ received ∷ []))
    ≡ record (port (cancelled ∷ cancelled ∷ received ∷ [])) { packets = received ∷ []; waiting = 0 }
workers_lost_example =
    workers_lost (cancelled ∷ cancelled ∷ []) (received ∷ [])
      (takes ∷ advances 0 ∷ takes ∷ takes ∷ []) (port (cancelled ∷ cancelled ∷ received ∷ []))
      aborted refl refl refl takes_enough

started : (run (initializes true 2 ∷ works (advances 0) ∷ []) fresh).is_running ≡ true
unfolding run step initialize work_step work pick
started = refl

-- A worker waits, the other one still tests the flag, and Shutdown has woken one of two threads.
shutdown_ends_example :
    let m =
      run (wakes true ∷ []) (shutdown (run (initializes true 2 ∷ works (advances 0) ∷ []) fresh)) in
    (remaining (step (works takes) m) ≤ remaining m)
    × ((alive m ≡ 0) ⊎ ((t : Step) × (is_ending t ≡ true) × (remaining (step t m) < remaining m)))
    × ((ts : List Step) × All (λ t. is_ending t ≡ true) ts
        × (length ts ≤ remaining m)
        × (alive (run ts m) ≡ 0))
shutdown_ends_example =
    shutdown_ends (initializes true 2 ∷ works (advances 0) ∷ []) (wakes true ∷ []) (works takes)
      started (refl, tt) refl

-- Every call succeeds but `bind`.
abbrev taken_port : Winsock
taken_port = record {
  starts = true;
  socket = some 300;
  last_error = 0;
  sets = λ o. true;
  binds = false;
  listens = true;
}

make_default_listener-Outcome_example :
    Outcome taken_port 100 (make_default_listener taken_port 8080 100)
make_default_listener-Outcome_example = make_default_listener-Outcome taken_port 8080 100
