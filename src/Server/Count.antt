-- ===== src/Server/Count.antt =====
-- The server's count of connections agrees with its slots.
use highp_mmorpg.Prelude.{
  ℕ, zero, suc, ◌+◌, ◌-◌, ◌≤◌, ◌≡◌, refl, inl, inr, Bool, not, ◌||◌, List, [], ◌∷◌, ◌++◌, some,
  arith, All, All-set, All-get, ltb, if◌then◌else◌, Bool-cases, Option-cases, length, replicate,
  get_elem?, set,
}
use highp_mmorpg.Client.{
  Client, ClientEvent, Posted, accepted, io_pending, refused, connected, disconnected, recv_posted,
  recv_post_failed, send_posted, send_post_failed, is_connected, emit_connected_event,
  emit_disconnected_event, mark_connection_established, post_recv, close,
}
use highp_mmorpg.Client.Events.{open_count, IsCounted}
use highp_mmorpg.Server.{
  Server, Handler, fresh_client, count_events, put, allocate, close_client, find_available_client,
  set_up, handle_client_recv, setup_client, handle_recv, handle_send, Completion, accept, recv,
  send, unknown, on_completion, on_completions,
}

-- What was done with a client moves the count as it moves the slot, whatever the other slots add.
pub record IsSteady (c : Client) (done : Client × List ClientEvent) : Type 0 where
  pub counted : IsCounted done.0
  pub moves :
      (n : ℕ) → open_count c ≤ n → count_events done.1 n + open_count c ≡ n + open_count done.0

count_events-append :
    (es fs : List ClientEvent) (n : ℕ)
    → count_events (es ++ fs) n ≡ count_events fs (count_events es n)
unfolding count_events
count_events-append [] fs n = refl
count_events-append (connected ∷ es) fs n = count_events-append es fs (n + 1)
count_events-append (disconnected ∷ es) fs n =
    count_events-append es fs (if ltb 0 n then n - 1 else n)
count_events-append (recv_posted ∷ es) fs n = count_events-append es fs n
count_events-append (recv_post_failed ∷ es) fs n = count_events-append es fs n
count_events-append (send_posted ∷ es) fs n = count_events-append es fs n
count_events-append (send_post_failed ∷ es) fs n = count_events-append es fs n

-- One thing done after another.
pub IsSteady-append :
    (c c' c'' : Client) (es fs : List ClientEvent)
    → IsSteady c (c', es)
    → IsSteady c' (c'', fs)
    → IsSteady c (c'', es ++ fs)
IsSteady-append c c' c'' es fs h k = record {
  counted = k.counted;
  moves = λ n below. omega (
    arith,
    h.moves n below,
    k.moves (count_events es n) (omega (arith, h.moves n below)),
    count_events-append es fs n,
  );
}

pub close-IsSteady : (c : Client) → IsCounted c → IsSteady c (close c)
unfolding close emit_disconnected_event count_events
close-IsSteady c v = record {
  counted = record { counted = λ e. ground (arith, v.counted, e) };
  moves = λ n h. ground (arith, v.counted, h);
}

mark-IsSteady : (c : Client) → IsCounted c → IsSteady c (mark_connection_established c)
unfolding mark_connection_established emit_connected_event count_events
mark-IsSteady c v = record {
  counted = record { counted = λ e. ground (arith, v.counted, e) };
  moves = λ n h. ground (arith, v.counted, h);
}

post_recv-IsSteady :
    (answer : Posted) (c : Client) → IsCounted c → IsSteady c (c, (post_recv answer).1)
unfolding post_recv count_events
post_recv-IsSteady accepted c v = record { counted = v; moves = λ n h. refl }
post_recv-IsSteady io_pending c v = record { counted = v; moves = λ n h. refl }
post_recv-IsSteady refused c v = record { counted = v; moves = λ n h. refl }

open-IsSteady :
    (socket : ℕ) (c : Client) → IsCounted c → IsSteady c (record c { socket = some socket }, [])
unfolding count_events
open-IsSteady socket c v = record { counted = record { counted = v.counted }; moves = λ n h. refl }

close_client-IsSteady : (c : Client) → IsCounted c → IsSteady c (close_client c)
unfolding close_client count_events
close_client-IsSteady c v = elim (Bool-cases (is_connected c)) [
  | inl e ↦ rw (e, close_client) (close-IsSteady c v)
  | inr e ↦ rw (e, close_client) (record { counted = v; moves = λ n h. refl })
]

set_up-IsSteady :
    (associated : Bool) (answer : Posted) (socket : ℕ) (c : Client)
    → IsCounted c
    → let (done, c', events) = set_up associated answer socket c in IsSteady c (c', events)
unfolding set_up
set_up-IsSteady associated answer socket c v =
    let c₁ = record c { socket = some socket } in
    let start = open-IsSteady socket c v in
    let posted = post_recv-IsSteady answer c₁ start.counted in
    let closed = close-IsSteady c₁ start.counted in
    let marked = mark-IsSteady c₁ start.counted in
    elim (Bool-cases associated) [
      | inr e ↦ rw (e, set_up) (IsSteady-append c c₁ (close c₁).0 [] (close c₁).1 start closed)
      | inl e ↦ elim (Bool-cases (post_recv answer).0) [
        | inr f ↦
            rw (e, f, set_up)
              (IsSteady-append c c₁ (close c₁).0 (post_recv answer).1 (close c₁).1
                (IsSteady-append c c₁ c₁ [] (post_recv answer).1 start posted) closed)
        | inl f ↦
            rw (e, f, set_up)
              (IsSteady-append c c₁ (mark_connection_established c₁).0 (post_recv answer).1
                (mark_connection_established c₁).1
                (IsSteady-append c c₁ c₁ [] (post_recv answer).1 start posted) marked)
      ]
    ]

-- How many slots have a connection that is counted.
abbrev pub open_total : List Client → ℕ
open_total [] = 0
open_total (c ∷ cs) = open_count c + open_total cs

-- The count is that of the slots, and each slot is sound.
pub record IsCounting (s : Server) : Type 0 where
  pub slots : All IsCounted s.client_pool
  pub total : s.connected_client_count ≡ open_total s.client_pool

open_total-set :
    (cs : List Client) (i : ℕ) (c c' : Client)
    → get_elem? cs i ≡ some c
    → (open_total (set cs i c') + open_count c ≡ open_total cs + open_count c')
      × (open_count c ≤ open_total cs)
open_total-set [] i c c' e = absurd (ground arith)
open_total-set (d ∷ cs) zero c c' e =
    let same : d ≡ c = ground arith in rw same (omega arith, omega arith)
open_total-set (d ∷ cs) (suc i) c c' e =
    let (moved, below) = open_total-set cs i c c' e in (omega (arith, moved), omega (arith, below))

put-IsCounting :
    (slot : ℕ) (c : Client) (done : Client × List ClientEvent) (s : Server)
    → IsCounting s
    → get_elem? s.client_pool slot ≡ some c
    → IsSteady c done
    → IsCounting (put slot done s)
unfolding put
put-IsCounting slot c (c', events) s v at k =
    let (moved, below) = open_total-set s.client_pool slot c c' at in
    record {
      slots = All-set IsCounted s.client_pool slot c' v.slots k.counted;
      total =
          omega (
            arith,
            v.total,
            moved,
            k.moves s.connected_client_count (omega (arith, v.total, below)),
          );
    }

fresh_slots :
    (n : ℕ) → All IsCounted (replicate n fresh_client) × (0 ≡ open_total (replicate n fresh_client))
fresh_slots zero = (tt, refl)
fresh_slots (suc n) =
    let (slots, total) = fresh_slots n in
    ((record { counted = λ e. absurd (ground arith) }, slots), omega (arith, total))

fresh-IsCounting : (n : ℕ) → IsCounting (allocate n)
fresh-IsCounting n = let (slots, total) = fresh_slots n in record { slots = slots; total = total }

-- A handler that touches the count only through its client: what it does with a client moves the
-- count as it moves the slot.
abbrev pub IsFair : {World : Type 0} → Handler World → Type 0
IsFair {World = World} h =
    (slot : ℕ) (bytes : List ℕ) (c : Client) (w : World)
    → IsCounted c
    → let (c', events, w') = Handler.on_recv h slot bytes c w in IsSteady c (c', events)

module _ {World : Type 0} (h : Handler World) (fair : IsFair h) where
  recv-IsSteady :
      (success : Bool) (answer : Posted) (slot : ℕ) (bytes : List ℕ) (c : Client) (w : World)
      → IsCounted c
      → let (c', events, w') = handle_client_recv h success answer slot bytes c w in
        IsSteady c (c', events)
  unfolding handle_client_recv
  recv-IsSteady success answer slot bytes c w v =
      let (c₁, events, w₁) = Handler.on_recv h slot bytes c w in
      let handled = fair slot bytes c w v in
      let posted =
        IsSteady-append c c₁ c₁ events (post_recv answer).1 handled
          (post_recv-IsSteady answer c₁ handled.counted) in
      elim (Bool-cases (not success || not (ltb 0 (length bytes)))) [
        | inl e ↦ rw (e, handle_client_recv) (close_client-IsSteady c v)
        | inr e ↦ elim (Bool-cases (post_recv answer).0) [
          | inr f ↦
              rw (e, f, handle_client_recv)
                (IsSteady-append c c₁ (close_client c₁).0 (events ++ (post_recv answer).1)
                  (close_client c₁).1 posted (close_client-IsSteady c₁ handled.counted))
          | inl f ↦ rw (e, f, handle_client_recv) posted
        ]
      ]

  completion_counts :
      (e : Completion h) (s : Server) (w : World)
      → IsCounting s
      → IsCounting (on_completion h e s w).0
  unfolding on_completion setup_client handle_recv handle_send
  completion_counts (accept associated answer socket) s w v =
      elim (Option-cases (find_available_client s.client_pool)) [
        | inl e ↦ rw (e, setup_client) (record { slots = v.slots; total = v.total })
        | inr (slot, e) ↦ elim (Option-cases (get_elem? s.client_pool slot)) [
          | inl f ↦ rw (e, f, setup_client) v
          | inr (c, f) ↦
              let (done, c', events) = set_up associated answer socket c in
              rw (e, f, setup_client)
                (put-IsCounting slot c (c', events) s v f
                  (set_up-IsSteady associated answer socket c
                    (All-get IsCounted s.client_pool slot c v.slots f)))
        ]
      ]
  completion_counts (recv success answer slot bytes) s w v =
      elim (Option-cases (get_elem? s.client_pool slot)) [
        | inl f ↦ rw (f, handle_recv) v
        | inr (c, f) ↦
            let (c', events, w') = handle_client_recv h success answer slot bytes c w in
            rw (f, handle_recv)
              (put-IsCounting slot c (c', events) s v f
                (recv-IsSteady success answer slot bytes c w
                  (All-get IsCounted s.client_pool slot c v.slots f)))
      ]
  completion_counts (send slot bytes_transferred) s w v =
      elim (Option-cases (get_elem? s.client_pool slot)) [
        | inl f ↦ rw (f, handle_send) v
        | inr (c, f) ↦ rw (f, handle_send) v
      ]
  completion_counts unknown s w v = v

  completions_count :
      (es : List (Completion h)) (s : Server) (w : World)
      → IsCounting s
      → IsCounting (on_completions h es s w).0
  unfolding on_completions
  completions_count [] s w v = v
  completions_count (e ∷ es) s w v =
      let (s', w') = on_completion h e s w in completions_count es s' w' (completion_counts e s w v)

  -- From the pool as it is allocated, after any completions one after another, the count of
  -- connected clients is the number of slots whose connection was reported and whose end was not.
  -- What the application does with a client moves the count as it moves the slot.
  pub on_completions-IsCounting :
      (max_clients : ℕ) (es : List (Completion h)) (w : World)
      → IsCounting (on_completions h es (allocate max_clients) w).0
  on_completions-IsCounting max_clients es w =
      completions_count es (allocate max_clients) w (fresh-IsCounting max_clients)
