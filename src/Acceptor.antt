-- ===== src/Acceptor.antt =====
-- Accepting connections: network/src/acceptor/IocpAcceptor.cpp. The answers of Winsock are arguments: the
-- socket that WSASocketW makes, whether AcceptEx starts, and whether SO_UPDATE_ACCEPT_CONTEXT is set.
-- So is the item that the pool gives out.
pub mod Pending
pub mod Sockets
pub mod Completing
pub mod Serving
pub mod Outstanding
pub mod Gauge
use highp_mmorpg.Prelude.{
  ℕ, zero, suc, ◌==◌, if◌then◌else◌, Bool, true, false, not, ◌&&◌, Option, none, some, List, [],
  ◌∷◌, ◌++◌, map,
}
use highp_mmorpg.NetworkError.{
  Result, ok, err, socket_create_failed, socket_post_accept_failed, socket_accept_failed,
}
use highp_mmorpg.Scope.{Holder, DeferContext, make_context, destroy, hold, release, for_each}

pub data IoType : Type 0 where
  accept : IoType
  recv : IoType
  send : IoType

-- What the acceptor does outside itself, and what it reports to its callbacks.
pub data Effect : Type 0 where
  created : ℕ → Effect
  closed : ℕ → Effect
  handed : Option ℕ → Effect
  given_back : Option ℕ → Effect
  cancelled : ℕ → Effect
  posted : Effect
  post_failed : Effect
  completed : Effect
  completion_failed : Effect

-- `clients` is the `clientSocket` of each overlapped item, `none` for InvalidSocket. A held context
-- gives its item back to the pool. The trace has the latest effect first.
pub record Acceptor : Type 0 where
  pub loaded : Bool
  pub callback : Bool
  pub clients : ℕ → Option ℕ
  pub holder : Holder (Unit {0})
  pub trace : List Effect

abbrev pub write : (ℕ → Option ℕ) → ℕ → Option ℕ → ℕ → Option ℕ
write clients item v i = if i == item then v else clients i

-- What the clean-up of a socket does.
abbrev pub close_socket : Option ℕ → List Effect
close_socket none = []
close_socket (some s) = closed s ∷ []

abbrev pub give_back : List (Unit {0} × Option ℕ) → List Effect
give_back calls = map (λ call. given_back call.1) calls

unfoldable pub load_accept_ex_functions : Bool → Bool → Acceptor → Acceptor × Result (Unit {0})
load_accept_ex_functions accept_ex sock_addrs a =
    if not accept_ex
    then (a, err socket_post_accept_failed)
    else if not sock_addrs
    then (a, err socket_post_accept_failed)
    else (record a { loaded = true }, ok tt)

unfoldable pub initialize : Bool → Bool → Bool → Acceptor → Acceptor × Result (Unit {0})
unfolding load_accept_ex_functions
initialize associated accept_ex sock_addrs a =
    if not associated
    then (a, err socket_create_failed)
    else load_accept_ex_functions accept_ex sock_addrs a

-- The answers to one PostAccept: the new socket, the pool's item, and whether AcceptEx started.
pub record Answers : Type 0 where
  pub socket : Option ℕ
  pub item : ℕ
  pub started : Bool

-- PostAccept up to the call of AcceptEx and its report. Where AcceptEx does not start, the item goes back
-- to the pool and the socket is closed.
unfoldable pub issue : Answers → Acceptor → Acceptor × Result (DeferContext (Unit {0}))
unfolding make_context destroy
issue w a = elim w.socket [
  | none ↦ (record a { trace = post_failed ∷ a.trace }, err socket_create_failed)
  | some s ↦
      let c = make_context (some w.item) tt in
      if w.started
      then (
        record a {
          clients = write a.clients w.item (some s);
          trace = posted ∷ (created s ∷ a.trace);
        },
        ok c,
      )
      else (
        record a {
          clients = write a.clients w.item (some s);
          trace =
              close_socket (some s)
              ++ (give_back (destroy c) ++ (post_failed ∷ (created s ∷ a.trace)));
        },
        err socket_post_accept_failed,
      )
]

-- The end of PostAccept: the item is held until its completion comes.
unfoldable pub keep : ℕ → DeferContext (Unit {0}) → Acceptor → Acceptor
unfolding hold
keep item c a =
    let (h, calls) = hold item c a.holder in
    record a { holder = h; trace = give_back calls ++ a.trace }

unfoldable pub post_accept : Answers → Acceptor → Acceptor × Result (Unit {0})
unfolding issue keep
post_accept w a =
    let (a', result) = issue w a in
    elim result [ ok c ↦ (keep w.item c a', ok tt) | err e ↦ (a', err e) ]

-- One element of the list for each round of the loop.
unfoldable pub post_accepts : List Answers → Acceptor → Acceptor × Result (Unit {0})
post_accepts [] a = (a, ok tt)
post_accepts (w ∷ ws) a =
    let (a', result) = post_accept w a in
    let rest = post_accepts ws a' in elim result [ ok u ↦ rest | err e ↦ (a', err e) ]

unfoldable pub fail_completion : Acceptor → Acceptor × Result (Unit {0})
fail_completion a = (record a { trace = completion_failed ∷ a.trace }, err socket_accept_failed)

-- The clean-up at the end of OnAcceptComplete: the socket that still stands in the item is closed, and
-- then the item goes back to the pool.
unfoldable pub clean_up : ℕ → DeferContext (Unit {0}) → Acceptor → Acceptor
unfolding destroy
clean_up item c a = record a {
  trace = give_back (destroy c) ++ (close_socket (a.clients item) ++ a.trace);
}

-- The callback takes the socket over.
abbrev pub given : ℕ → Acceptor → Acceptor
given item a = record a {
  clients = write a.clients item none;
  trace = completed ∷ ((if a.callback then handed (a.clients item) ∷ [] else []) ++ a.trace);
}

-- OnAcceptComplete behind the release of the item, up to its clean-up: a new request is posted.
unfoldable pub hand_over : ℕ → Answers → Acceptor → Acceptor × Result (Unit {0})
hand_over item w a = post_accept w (given item a)

unfoldable pub finish :
    ℕ → DeferContext (Unit {0}) → Bool → Answers → Acceptor → Acceptor × Result (Unit {0})
unfolding fail_completion clean_up
finish item c updated w a =
    let (a', result) = if updated then hand_over item w a else fail_completion a in
    (clean_up item c a', result)

abbrev pub is_accept : IoType → Bool
is_accept accept = true
is_accept recv = false
is_accept send = false

-- `none` is a null pointer; an item comes with its ioType.
unfoldable pub on_accept_complete :
    Option (ℕ × IoType) → Bool → Answers → Acceptor → Acceptor × Result (Unit {0})
unfolding fail_completion release
on_accept_complete none updated w a = fail_completion a
on_accept_complete (some (item, io)) updated w a = elim (is_accept io) [
  | false ↦ fail_completion a
  | true ↦
      let (found, h) = release item a.holder in
      elim found [
        | none ↦ fail_completion a
        | some c ↦ finish item c updated w (record a { holder = h })
      ]
]

unfoldable pub shutdown : Acceptor → Acceptor
unfolding for_each
shutdown a = record a {
  loaded = false;
  trace = map (λ item. cancelled item) (for_each a.holder) ++ a.trace;
}
