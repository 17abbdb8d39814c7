-- ===== src/Multiplexer.antt =====
-- The completion port and its workers, network/src/io/windows/IocpIoMultiplexer.cpp. The port is the
-- queue of its packets, first in first out; what Windows answers is an argument. The workers and the thread
-- that shuts the port down take their steps in any order, one call or one test of the flag each.
pub mod Working
pub mod Leaving
pub mod Manned
pub mod Ending
pub mod Serving
use highp_mmorpg.Prelude.{
  ℕ, zero, suc, ◌+◌, ◌-◌, ◌==◌, Bool, true, false, not, ◌&&◌, ◌||◌, List, [], ◌∷◌, ◌++◌, Option,
  none, some, if◌then◌else◌, replicate, pick,
}
use highp_mmorpg.NetworkError.{Result, ok, err, iocp_create_failed, iocp_internal_error}
use highp_mmorpg.Acceptor.{IoType, accept}

-- What GetQueuedCompletionStatus brings. The key 0 and the overlapped item `none` are the null pointers;
-- an error is that of an operation that failed.
pub record Packet : Type 0 where
  pub completion_key : ℕ
  pub overlapped : Option (ℕ × IoType)
  pub bytes_transferred : ℕ
  pub error : Option ℕ

pub record CompletionEvent : Type 0 where
  pub io_type : IoType
  pub target : ℕ
  pub overlapped : Option (ℕ × IoType)
  pub bytes_transferred : ℕ
  pub success : Bool
  pub error_code : ℕ

-- The calls of the callbacks and of the completion handler.
pub data Event : Type 0 where
  worker_dispatch_begin worker_dispatch_end : Event
  completion : CompletionEvent → Event

-- A worker outside GetQueuedCompletionStatus, by what it does next: `onWorkerDispatchBegin`, the completion
-- handler, `onWorkerDispatchEnd`, or the test at the head of its loop.
pub data Worker : Type 0 where
  begins handles : Packet → Worker
  ends tests : Worker

-- `threads` is the length of `_workerThreads`. `waiting` workers are in GetQueuedCompletionStatus, and the
-- `busy` ones outside it; one that has left its loop is in neither. `to_wake` threads still have to be
-- woken by Shutdown. `events` are the calls so far, oldest first.
pub record Multiplexer : Type 0 where
  pub is_running : Bool
  pub threads : ℕ
  pub to_wake : ℕ
  pub waiting : ℕ
  pub busy : List Worker
  pub packets : List Packet
  pub events : List Event

unfoldable pub initialize : (created : Bool) → ℕ → Multiplexer → Result (Unit {0}) × Multiplexer
initialize created worker_thread_count m =
    if created
    then (
      ok tt,
      record m {
        is_running = true;
        threads = m.threads + worker_thread_count;
        busy = replicate worker_thread_count tests ++ m.busy;
      },
    )
    else (err iocp_create_failed, m)

-- A packet that comes in behind the others.
abbrev pub enqueue : Packet → Multiplexer → Multiplexer
enqueue p m = record m { packets = m.packets ++ p ∷ [] }

unfoldable pub post_completion :
    (posted : Bool) → Packet → Multiplexer → Result (Unit {0}) × Multiplexer
post_completion posted p m = if posted then (ok tt, enqueue p m) else (err iocp_internal_error, m)

-- The packet that Shutdown posts for each thread.
abbrev pub wake_up : Packet
wake_up = record { completion_key = 0; overlapped = none; bytes_transferred = 0; error = none }

-- The exchange at the head of Shutdown.
unfoldable pub shutdown : Multiplexer → Multiplexer
shutdown m = if m.is_running then record m { is_running = false; to_wake = m.threads } else m

-- One round of the loop of Shutdown, with the answer of PostQueuedCompletionStatus, which is not looked at.
-- The stop that it requests comes after the flag is off, which alone ends the worker's loop.
unfoldable pub wake : (posted : Bool) → Multiplexer → Multiplexer
wake posted m =
    if m.to_wake == 0
    then m
    else if posted
    then enqueue wake_up (record m { to_wake = m.to_wake - 1 })
    else record m { to_wake = m.to_wake - 1 }

abbrev pub is_wake_up : Packet → Bool
is_wake_up p = p.completion_key == 0 && elim p.overlapped [ none ↦ true | some _ ↦ false ]

-- ERROR_OPERATION_ABORTED
abbrev pub is_aborted : Packet → Bool
is_aborted p = elim p.error [ none ↦ false | some e ↦ e == 995 ]

abbrev pub event_of : Packet → CompletionEvent
event_of p = record {
  io_type = elim p.overlapped [ none ↦ accept | some o ↦ o.1 ];
  target = p.completion_key;
  overlapped = p.overlapped;
  bytes_transferred = p.bytes_transferred;
  success = elim p.error [ none ↦ true | some _ ↦ false ];
  error_code = elim p.error [ none ↦ 0 | some e ↦ e ];
}

-- The worker that got the packet: it leaves its loop, or goes on to the callbacks.
unfoldable pub receive : Packet → Multiplexer → Multiplexer
receive p m = if is_wake_up p || is_aborted p then m else record m { busy = begins p ∷ m.busy }

-- A waiting worker gets the first packet.
unfoldable pub take_from : List Packet → Multiplexer → Multiplexer
unfolding receive
take_from [] m = m
take_from (p ∷ ps) m =
    if m.waiting == 0 then m else receive p (record m { packets = ps; waiting = m.waiting - 1 })

unfoldable pub take : Multiplexer → Multiplexer
unfolding take_from
take m = take_from m.packets m

-- What a worker does next; it is not among the `busy` here.
unfoldable pub work : Worker → Multiplexer → Multiplexer
work (begins p) m = record m {
  busy = handles p ∷ m.busy;
  events = m.events ++ worker_dispatch_begin ∷ [];
}
work (handles p) m = record m {
  busy = ends ∷ m.busy;
  events = m.events ++ completion (event_of p) ∷ [];
}
work ends m = record m { busy = tests ∷ m.busy; events = m.events ++ worker_dispatch_end ∷ [] }
work tests m = if m.is_running then record m { waiting = m.waiting + 1 } else m

abbrev pub work_on : Option (Worker × List Worker) → Multiplexer → Multiplexer
work_on none m = m
work_on (some (w, ws)) m = work w (record m { busy = ws })

-- One step of a worker: a waiting one, or the busy one at a place.
pub data Work : Type 0 where
  takes : Work
  advances : ℕ → Work

unfoldable pub work_step : Work → Multiplexer → Multiplexer
unfolding take pick
work_step takes m = take m
work_step (advances i) m = work_on (pick i m.busy) m

-- One step of any thread. A packet arrives when an operation completes.
pub data Step : Type 0 where
  initializes : (created : Bool) → ℕ → Step
  posts : (posted : Bool) → Packet → Step
  arrives : Packet → Step
  shuts_down : Step
  wakes : (posted : Bool) → Step
  works : Work → Step

unfoldable pub step : Step → Multiplexer → Multiplexer
unfolding initialize post_completion shutdown wake work_step
step (initializes created n) m = (initialize created n m).1
step (posts posted p) m = (post_completion posted p m).1
step (arrives p) m = enqueue p m
step shuts_down m = shutdown m
step (wakes posted) m = wake posted m
step (works w) m = work_step w m

unfoldable pub run : List Step → Multiplexer → Multiplexer
run [] m = m
run (s ∷ ss) m = run ss (step s m)

-- `IocpIoMultiplexer` before Initialize.
abbrev pub fresh : Multiplexer
fresh = record {
  is_running = false;
  threads = 0;
  to_wake = 0;
  waiting = 0;
  busy = [];
  packets = [];
  events = [];
}
