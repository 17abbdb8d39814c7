-- ===== src/Acceptor/Serving.antt =====
-- The acceptor through any sequence of requests and completions: Acceptor.antt.
use highp_mmorpg.Prelude.{ℕ, ◌≡◌, refl, Bool, true, Option, none, List, [], ◌∷◌, arith}
use highp_mmorpg.Scope.{find}
use highp_mmorpg.Acceptor.{IoType, Acceptor, Answers, post_accept, on_accept_complete}
use highp_mmorpg.Acceptor.Pending.{held, IsDistinct}
use highp_mmorpg.Acceptor.Sockets.{tally, IsAccounted, post_accept-IsAccounted}
use highp_mmorpg.Acceptor.Completing.{on_accept_complete-IsAccounted}

-- PostAccept with its answers, or a completion, with those of the request that follows it.
pub data Call : Type 0 where
  posts : Answers → Call
  completes : Option (ℕ × IoType) → Bool → Answers → Call

abbrev pub answers : Call → Answers
answers (posts w) = w
answers (completes overlapped updated w) = w

unfoldable pub run : Call → Acceptor → Acceptor
run (posts w) a = (post_accept w a).0
run (completes overlapped updated w) a = (on_accept_complete overlapped updated w a).0

unfoldable pub run_all : List Call → Acceptor → Acceptor
run_all [] a = a
run_all (c ∷ cs) a = run_all cs (run c a)

-- The pool gives out no item that is held.
unfoldable pub IsFair : List Call → Acceptor → Type 0
IsFair [] a = Unit
IsFair (c ∷ cs) a = (find (answers c).item a.holder.items ≡ none) × IsFair cs (run c a)

run-IsAccounted :
    (c : Call) (a : Acceptor)
    → find (answers c).item a.holder.items ≡ none
    → IsAccounted a
    → IsAccounted (run c a)
unfolding run
run-IsAccounted (posts w) a fresh h = post_accept-IsAccounted w a fresh h
run-IsAccounted (completes overlapped updated w) a fresh h =
    on_accept_complete-IsAccounted overlapped updated w a fresh h

run_all-keeps :
    (cs : List Call) (a : Acceptor) → IsFair cs a → IsAccounted a → IsAccounted (run_all cs a)
unfolding run_all IsFair
run_all-keeps [] a fair h = h
run_all-keeps (c ∷ cs) a fair h = run_all-keeps cs (run c a) fair.1 (run-IsAccounted c a fair.0 h)

-- The acceptor before its first request.
abbrev pub idle : Acceptor
idle = record {
  loaded = true;
  callback = true;
  clients = λ item. none;
  holder = record { items = [] };
  trace = [];
}

-- Through any sequence of requests and completions, whatever Winsock answers and however often a
-- completion fails or names an item that is unknown, each accept socket that was made was closed once,
-- or was handed once to the accept callback, or stands in one held item: none is lost and none is given
-- up twice. The pool must give out no item that is held.
pub run_all-IsAccounted : (cs : List Call) → IsFair cs idle → IsAccounted (run_all cs idle)
unfolding tally held IsDistinct
run_all-IsAccounted cs fair =
    run_all-keeps cs idle fair
      (record { bound = refl; distinct = tt; accounted = λ s. omega arith })
