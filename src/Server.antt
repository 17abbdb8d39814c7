-- ===== src/Server.antt =====
-- network/src/ServerLifecycle.cpp: the pool of clients, the count of connections, and what the server does
-- on each completion. The acceptor, the completion port and Winsock answer through arguments.
pub mod Count
pub mod Reuse
use highp_mmorpg.Prelude.{
  ℕ, zero, suc, ◌+◌, ◌-◌, Bool, true, false, not, ◌&&◌, ◌||◌, List, [], ◌∷◌, ◌++◌, Option, none,
  some, ltb, if◌then◌else◌, length, replicate, get_elem?, set,
}
use highp_mmorpg.Frame.{FrameBuffer, max_frame_size}
use highp_mmorpg.Client.{
  Client, ClientEvent, Posted, connected, disconnected, recv_posted, recv_post_failed, send_posted,
  send_post_failed, send_buffer_size, is_connected, mark_connection_established, post_recv, close,
}

-- `_clientPool`, `_connectedClientCount`, and the sockets that `closesocket` got from `SetupClient`.
pub record Server : Type 0 where
  pub client_pool : List Client
  pub connected_client_count : ℕ
  pub turned_away : List ℕ

-- `ISessionEventReceiver`, on the application's state. `on_recv` may use the client, so it gives it
-- back with the callbacks it has made.
pub record Handler (World : Type 0) : Type 0 where
  pub on_accept : ℕ → World → World
  pub on_disconnect : ℕ → World → World
  pub on_recv : ℕ → List ℕ → Client → World → Client × List ClientEvent × World
  pub on_send : ℕ → ℕ → World → World

-- `std::make_shared<Client>()`
abbrev pub fresh_client : Client
fresh_client = record {
  socket = none;
  frame_buf = record { buf = replicate max_frame_size 0; len = 0 };
  send_buf = replicate send_buffer_size 0;
  connection_established = false;
  connection_event_counted = false;
}

-- The count after the callbacks that `BuildClientCallbacks` installs.
unfoldable pub count_events : List ClientEvent → ℕ → ℕ
count_events [] n = n
count_events (connected ∷ es) n = count_events es (n + 1)
count_events (disconnected ∷ es) n = count_events es (if ltb 0 n then n - 1 else n)
count_events (recv_posted ∷ es) n = count_events es n
count_events (recv_post_failed ∷ es) n = count_events es n
count_events (send_posted ∷ es) n = count_events es n
count_events (send_post_failed ∷ es) n = count_events es n

-- A slot after what was done with its client.
unfoldable pub put : ℕ → Client × List ClientEvent → Server → Server
put slot (c, events) s = record s {
  client_pool = set s.client_pool slot c;
  connected_client_count = count_events events s.connected_client_count;
}

-- The pool that `Start` allocates.
abbrev pub allocate : ℕ → Server
allocate max_clients = record {
  client_pool = replicate max_clients fresh_client;
  connected_client_count = 0;
  turned_away = [];
}

-- `ServerLifeCycle::Stop`, of the state that is modelled.
unfoldable pub stop : Server → Server
stop s = record s { client_pool = []; connected_client_count = 0 }

-- `ServerLifeCycle::CloseClient`
unfoldable pub close_client : Client → Client × List ClientEvent
close_client c = if is_connected c then close c else (c, [])

-- `ServerLifeCycle::FindAvailableClient`: the first slot that has no socket.
unfoldable pub find_available_client : List Client → Option ℕ
find_available_client [] = none
find_available_client (c ∷ cs) =
    let rest : Option ℕ = elim (find_available_client cs) [ none ↦ none | some i ↦ some (suc i) ] in
    if is_connected c then rest else some 0

-- What `SetupClient` does with the client it found: whether it was set up, the client, its callbacks.
unfoldable pub set_up : (associated : Bool) → Posted → ℕ → Client → Bool × Client × List ClientEvent
set_up associated answer socket c =
    let c₁ = record c { socket = some socket } in
    let (posted, events) = post_recv answer in
    let (c₂, closed) = close c₁ in
    let (c₃, marked) = mark_connection_established c₁ in
    if not associated
    then (false, c₂, closed)
    else if not posted
    then (false, c₂, events ++ closed)
    else (true, c₃, events ++ marked)

-- `HandleRecv` on the client, from the first check on: the client, its callbacks, the application.
unfoldable pub handle_client_recv :
    {World : Type 0}
    → Handler World
    → (success : Bool) → Posted
    → ℕ
    → List ℕ
    → Client
    → World
    → Client × List ClientEvent × World
handle_client_recv h success answer slot bytes c w =
    let (gone, gone_events) = close_client c in
    let (c₁, events, w₁) = Handler.on_recv h slot bytes c w in
    let (posted, posted_events) = post_recv answer in
    let (c₂, closed) = close_client c₁ in
    if not success || not (ltb 0 (length bytes))
    then (gone, gone_events, Handler.on_disconnect h slot w)
    else if not posted
    then (c₂, events ++ posted_events ++ closed, w₁)
    else (c₁, events ++ posted_events, w₁)

module _ {World : Type 0} (h : Handler World) where
  open h use {on_accept, on_send}

  -- `ServerLifeCycle::SetupClient`, with what `AssociateSocket` and `WSARecv` answer.
  unfoldable pub setup_client : (associated : Bool) → Posted → ℕ → Server → World → Server × World
  setup_client associated answer socket s w = elim (find_available_client s.client_pool) [
    | none ↦ (record s { turned_away = s.turned_away ++ socket ∷ [] }, w)
    | some slot ↦ elim (get_elem? s.client_pool slot) [
      | none ↦ (s, w)
      | some c ↦
          let (done, c', events) = set_up associated answer socket c in
          (put slot (c', events) s, if done then on_accept slot w else w)
    ]
  ]

  -- `ServerLifeCycle::HandleRecv`; a slot that is not there is a target that is no client.
  unfoldable pub handle_recv : Bool → Posted → ℕ → List ℕ → Server → World → Server × World
  handle_recv success answer slot bytes s w = elim (get_elem? s.client_pool slot) [
    | none ↦ (s, w)
    | some c ↦
        let (c', events, w') = handle_client_recv h success answer slot bytes c w in
        (put slot (c', events) s, w')
  ]

  -- `ServerLifeCycle::HandleSend`
  unfoldable pub handle_send : ℕ → ℕ → Server → World → Server × World
  handle_send slot bytes_transferred s w = elim (get_elem? s.client_pool slot) [
    | none ↦ (s, w)
    | some c ↦ (s, on_send slot bytes_transferred w)
  ]

  -- What a worker thread takes from the completion port.
  pub data Completion : Type 0 where
    accept : (associated : Bool) → Posted → ℕ → Completion
    recv : (success : Bool) → Posted → ℕ → List ℕ → Completion
    send : (slot bytes_transferred : ℕ) → Completion
    unknown : Completion

  -- `ServerLifeCycle::OnCompletion`
  unfoldable pub on_completion : Completion → Server → World → Server × World
  on_completion (accept associated answer socket) s w = setup_client associated answer socket s w
  on_completion (recv success answer slot bytes) s w = handle_recv success answer slot bytes s w
  on_completion (send slot bytes_transferred) s w = handle_send slot bytes_transferred s w
  on_completion unknown s w = (s, w)

  unfoldable pub on_completions : List Completion → Server → World → Server × World
  on_completions [] s w = (s, w)
  on_completions (e ∷ es) s w = let (s', w') = on_completion e s w in on_completions es s' w'
