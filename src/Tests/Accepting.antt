-- ===== src/Tests/Accepting.antt =====
-- The acceptor, contexts that move, and the client's pending requests.
use highp_mmorpg.Prelude.{
  ℕ, ◌+◌, ◌%◌, ◌^◌, ◌≡◌, refl, Bool, true, false, ◌&&◌, List, [], ◌∷◌, map, none, some,
  if◌then◌else◌,
}
use mathlib.Core.List.{reverse}
use highp_mmorpg.Scope.{make_context, destroy, find}
use highp_mmorpg.Scope.Once
use highp_mmorpg.Scope.Once.{registered, use_all, use_all-destroy}
use highp_mmorpg.Acceptor.{
  accept, completion_failed, posted, created, Acceptor, Answers, issue, keep, post_accept,
  on_accept_complete,
}
use highp_mmorpg.Acceptor.Sockets.{IsAccounted}
use highp_mmorpg.Acceptor.Serving.{
  Call, posts, completes, run, run_all, IsFair, idle, run_all-IsAccounted,
}
use highp_mmorpg.Acceptor.Outstanding.{
  outstanding, is_made, outstanding-on_accept_complete, early_completion,
}
use highp_mmorpg.Acceptor.Gauge.{on_effects, IsExpected, AreExpected, pending_accept_count-run_all}
use highp_mmorpg.Metrics.{ServerMetrics, empty_window}
use highp_mmorpg.Chat.SessionManager.{find_key}
use highp_mmorpg.Tests.Data.{quiet}
use highp_mmorpg.Metrics.Client.Pending
use highp_mmorpg.Metrics.Client.Pending.{cell_all, find-run_all}

abbrev answers : ℕ → ℕ → Bool → Answers
answers socket item started = record { socket = some socket; item = item; started = started }

-- Two requests; the second socket is refused by AcceptEx. Then the first completes, and is posted again.
abbrev calls : List Call
calls =
    posts (answers 7 0 true)
    ∷ posts (answers 8 1 false)
    ∷ completes (some (0, accept)) true (answers 9 2 true)
    ∷ []

calls-IsFair : IsFair calls idle
unfolding IsFair run find post_accept
calls-IsFair = (refl, (refl, (refl, tt)))

run_all-IsAccounted_example : IsAccounted (run_all calls idle)
run_all-IsAccounted_example = run_all-IsAccounted calls calls-IsFair

-- Item 0 waits with socket 7.
abbrev waiting : Acceptor
waiting = record idle {
  clients = λ item. some 7;
  holder = record { items = (0, make_context (some 0) tt) ∷ [] };
}

outstanding-on_accept_complete_example :
    outstanding (on_accept_complete (some (0, accept)) true (answers 9 2 true) waiting).0 + 1
    ≡ outstanding waiting + (if true && (is_made (some 9) && true) then 1 else 0)
unfolding find
outstanding-on_accept_complete_example =
    outstanding-on_accept_complete 0 (make_context (some 0) tt) true (answers 9 2 true) waiting refl
      refl

early_completion_example :
    let c = make_context (some 3) tt in
    let meanwhile =
      (on_accept_complete
        (some (3, accept))
        true
        (answers 9 4 true)
        (issue (answers 7 3 true) idle).0).0 in
    let a' = keep 3 c meanwhile in
    (a'.trace ≡ completion_failed ∷ (posted ∷ (created 7 ∷ [])))
    × (a'.holder.items ≡ (3, c) ∷ [])
    × (a'.clients 3 ≡ some 7)
unfolding find
early_completion_example =
    early_completion (answers 7 3 true) 7 true (answers 9 4 true) idle refl refl refl

calls-AreExpected : AreExpected calls idle
unfolding AreExpected IsExpected run find post_accept
calls-AreExpected = (tt, (tt, ((refl, make_context (some 0) tt, refl), tt)))

abbrev zeroed : ServerMetrics
zeroed = record {
  accept_total = 0;
  disconnect_total = 0;
  recv_packets_total = 0;
  send_packets_total = 0;
  recv_bytes_total = 0;
  send_bytes_total = 0;
  send_fail_total = 0;
  packet_validation_total = 0;
  packet_validation_failure_total = 0;
  connected_clients = 0;
  pending_accept_count = 0;
  pending_recv_count = 0;
  pending_send_count = 0;
  dispatcher_queue_length = 0;
  runnable_worker_thread_count = 0;
  queue_wait = empty_window;
  dispatch_process = empty_window;
  tick_duration = empty_window;
  tick_lag = empty_window;
}

pending_accept_count-run_all_example :
    (on_effects (run_all calls idle).trace zeroed).pending_accept_count % 2 ^ 64
    ≡ outstanding (run_all calls idle) % 2 ^ 64
pending_accept_count-run_all_example =
    pending_accept_count-run_all calls zeroed calls-IsFair calls-AreExpected refl

-- A context that is moved over another one, and back.
abbrev moves : List (Once.Use ℕ)
moves =
    Once.registers 2
    ∷ Once.moves (make_context (some 5) 9)
    ∷ Once.registers 3
    ∷ Once.moves (make_context none 8)
    ∷ []

use_all-destroy_example :
    let (end, left) = use_all moves (make_context (some 4) 1) in
    (left ≡ []) × (destroy end ≡ map (λ g. (g, some 4)) (reverse (1 ∷ registered moves)))
use_all-destroy_example = use_all-destroy moves (some 4) 1

abbrev requests : List Pending.Call
requests =
    Pending.tracks 10 1 5 2
    ∷ Pending.tracks 11 2 6 0
    ∷ Pending.resolves 12 2 6
    ∷ Pending.expires 3000000
    ∷ []

find-run_all_example :
    find_key 1 (Pending.run_all requests quiet).pending_requests ≡ cell_all 1 requests none
find-run_all_example = find-run_all 1 requests quiet tt
