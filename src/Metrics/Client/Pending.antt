-- ===== src/Metrics/Client/Pending.antt =====
-- The pending requests of the client's metrics as one cell for each sequence number: Metrics/Client.antt.
use highp_mmorpg.Prelude.{
  ℕ, ◌≡◌, refl, ap, subst, ◌∙◌, ◌==◌, ==_iff, if◌then◌else◌, inl, inr, Bool, true, false, ◌||◌,
  Option, none, some, List, [], ◌∷◌, arith, Bool-cases, Option-cases,
}
use highp_mmorpg.Chat.SessionManager.{find_key, erase_key}
use highp_mmorpg.Chat.SessionManager.Table.{
  Absent, AreKeys, find-assign, assign-keys, find-erase, find-Absent,
}
use highp_mmorpg.Metrics.Client.{
  ClientMetrics, PendingRequest, deadline_of, track_request, resolve_found, resolve_request,
  is_overdue, expire, expire_timed_out_requests,
}

pub data Call : Type 0 where
  tracks : (now sequence response_type timeout_ms : ℕ) → Call
  resolves : (now sequence received_type : ℕ) → Call
  expires : (now : ℕ) → Call

unfoldable pub run : Call → ClientMetrics → ClientMetrics
run (tracks now sequence response_type timeout_ms) m =
    track_request now sequence response_type timeout_ms m
run (resolves now sequence received_type) m = resolve_request now sequence received_type m
run (expires now) m = expire_timed_out_requests now m

unfoldable pub run_all : List Call → ClientMetrics → ClientMetrics
run_all [] m = m
run_all (c ∷ cs) m = run_all cs (run c m)

-- What happens to a request that waits, in the cell of sequence `s`.
unfoldable pub answer : ℕ → Option PendingRequest → Option PendingRequest
answer received_type none = none
answer received_type (some r) = if r.response_type == received_type then none else some r

unfoldable pub time_out : ℕ → Option PendingRequest → Option PendingRequest
time_out now none = none
time_out now (some r) = if is_overdue now r then none else some r

-- One cell: a call for another sequence number leaves it alone, and so do the sequence number 0 and the
-- type 0.
unfoldable pub cell : ℕ → Call → Option PendingRequest → Option PendingRequest
cell s (tracks now sequence response_type timeout_ms) o =
    if sequence == 0 || response_type == 0
    then o
    else if sequence == s
    then some (record {
      response_type = response_type;
      sent_at = now;
      deadline = deadline_of now timeout_ms;
    })
    else o
cell s (resolves now sequence received_type) o =
    if sequence == 0 then o else if sequence == s then answer received_type o else o
cell s (expires now) o = time_out now o

unfoldable pub cell_all : ℕ → List Call → Option PendingRequest → Option PendingRequest
cell_all s [] o = o
cell_all s (c ∷ cs) o = cell_all s cs (cell s c o)

erase-Absent : (key k : ℕ) (m : List (ℕ × PendingRequest)) → Absent k m → Absent k (erase_key key m)
erase-Absent key k [] h = tt
erase-Absent key k ((j, r) ∷ m) h = elim (Bool-cases (j == key)) [
  | inl e ↦ rw e h.1
  | inr e ↦ rw e (h.0, erase-Absent key k m h.1)
]

erase-keys : (key : ℕ) (m : List (ℕ × PendingRequest)) → AreKeys m → AreKeys (erase_key key m)
erase-keys key [] h = tt
erase-keys key ((j, r) ∷ m) h = elim (Bool-cases (j == key)) [
  | inl e ↦ rw e h.1
  | inr e ↦ rw e (erase-Absent key j m h.0, erase-keys key m h.1)
]

expire-Absent :
    (now k : ℕ) (m : List (ℕ × PendingRequest)) (total : ℕ)
    → Absent k m
    → Absent k (expire now m total).0
unfolding expire
expire-Absent now k [] total h = tt
expire-Absent now k ((j, r) ∷ m) total h = elim (Bool-cases (is_overdue now r)) [
  | inl e ↦ rw e (expire-Absent now k m _ h.1)
  | inr e ↦ rw e (h.0, expire-Absent now k m _ h.1)
]

expire-keys :
    (now : ℕ) (m : List (ℕ × PendingRequest)) (total : ℕ)
    → AreKeys m
    → AreKeys (expire now m total).0
unfolding expire
expire-keys now [] total h = tt
expire-keys now ((j, r) ∷ m) total h = elim (Bool-cases (is_overdue now r)) [
  | inl e ↦ rw e (expire-keys now m _ h.1)
  | inr e ↦ rw e (expire-Absent now j m _ h.0, expire-keys now m _ h.1)
]

out_of : (r : PendingRequest) {b : Bool} → b ≡ true → none ≡ (if b then none else some r)
out_of r e = rw e

kept_of : (r : PendingRequest) {b : Bool} → b ≡ false → some r ≡ (if b then none else some r)
kept_of r e = rw e

find-expire :
    (now s : ℕ) (m : List (ℕ × PendingRequest)) (total : ℕ)
    → AreKeys m
    → find_key s (expire now m total).0 ≡ time_out now (find_key s m)
unfolding expire time_out
find-expire now s [] total h = refl
find-expire now s ((j, r) ∷ m) total h = elim (Bool-cases (j == s)) [
  | inl here ↦
      let same : j ≡ s = (==_iff j s).0 here in
      let gone =
        λ (t : ℕ). find-Absent s _ (expire-Absent now s m t (subst (λ k. Absent k m) same h.0)) in
      elim (Bool-cases (is_overdue now r)) [
        | inl e ↦ rw (e, here) (gone _ ∙ out_of r e)
        | inr e ↦ rw (e, here) (kept_of r e)
      ]
  | inr away ↦ elim (Bool-cases (is_overdue now r)) [
    | inl e ↦ rw (e, away) (find-expire now s m _ h.1)
    | inr e ↦ rw (e, away) (find-expire now s m _ h.1)
  ]
]

-- What an answer leaves of the pending requests.
answered : ℕ → ℕ → List (ℕ × PendingRequest) → List (ℕ × PendingRequest)
answered sequence received_type m = elim (find_key sequence m) [
  | none ↦ m
  | some r ↦ if r.response_type == received_type then erase_key sequence m else m
]

pending-resolve_request :
    (now sequence received_type : ℕ) (m : ClientMetrics)
    → (resolve_request now sequence received_type m).pending_requests ≡ (
        if sequence == 0
        then m.pending_requests
        else answered sequence received_type m.pending_requests)
unfolding resolve_request resolve_found answered
pending-resolve_request now sequence received_type m = ground arith

answered-AreKeys :
    (sequence received_type : ℕ) (m : List (ℕ × PendingRequest))
    → AreKeys m
    → AreKeys (answered sequence received_type m)
unfolding answered
answered-AreKeys sequence received_type m h = elim (Option-cases (find_key sequence m)) [
  | inl gone ↦ rw (gone, answered, AreKeys) h
  | inr (r, found) ↦ elim (Bool-cases (r.response_type == received_type)) [
    | inl e ↦ rw (found, e, answered, AreKeys) (erase-keys sequence m h)
    | inr e ↦ rw (found, e, answered, AreKeys) h
  ]
]

find-answered :
    (s sequence received_type : ℕ) (m : List (ℕ × PendingRequest))
    → AreKeys m
    → find_key s (answered sequence received_type m)
      ≡ (if sequence == s then answer received_type (find_key s m) else find_key s m)
unfolding answered answer
find-answered s sequence received_type m h = ground (arith, find-erase sequence s m h)

run-AreKeys :
    (c : Call) (m : ClientMetrics) → AreKeys m.pending_requests → AreKeys (run c m).pending_requests
unfolding run track_request expire_timed_out_requests
run-AreKeys (tracks now sequence response_type timeout_ms) m h =
    elim (Bool-cases (sequence == 0 || response_type == 0)) [
      | inl e ↦ rw e h
      | inr e ↦ rw e (assign-keys sequence _ m.pending_requests h)
    ]
run-AreKeys (resolves now sequence received_type) m h =
    rw (pending-resolve_request now sequence received_type m) (elim (Bool-cases (sequence == 0)) [
      | inl e ↦ rw e h
      | inr e ↦ rw e (answered-AreKeys sequence received_type m.pending_requests h)
    ])
run-AreKeys (expires now) m h = expire-keys now m.pending_requests m.response_timeout_total h

find-run :
    (s : ℕ) (c : Call) (m : ClientMetrics)
    → AreKeys m.pending_requests
    → find_key s (run c m).pending_requests ≡ cell s c (find_key s m.pending_requests)
unfolding run cell track_request expire_timed_out_requests
find-run s (tracks now sequence response_type timeout_ms) m h =
    elim (Bool-cases (sequence == 0 || response_type == 0)) [
      | inl e ↦ rw e
      | inr e ↦ rw e (find-assign sequence s _ m.pending_requests)
    ]
find-run s (resolves now sequence received_type) m h =
    rw (pending-resolve_request now sequence received_type m) (elim (Bool-cases (sequence == 0)) [
      | inl e ↦ rw e
      | inr e ↦ rw e (find-answered s sequence received_type m.pending_requests h)
    ])
find-run s (expires now) m h = find-expire now s m.pending_requests m.response_timeout_total h

-- After any sequence of requests tracked, answers received and expiries, a sequence number is pending, and
-- with which type, sending time and deadline, just as its own cell says, which sees the calls one by one:
-- the last request tracked under it, until an answer of its type or an expiry at its deadline or later.
-- Requests under other numbers make no difference.
pub find-run_all :
    (s : ℕ) (cs : List Call) (m : ClientMetrics)
    → AreKeys m.pending_requests
    → find_key s (run_all cs m).pending_requests ≡ cell_all s cs (find_key s m.pending_requests)
unfolding run_all cell_all
find-run_all s [] m h = refl
find-run_all s (c ∷ cs) m h =
    find-run_all s cs (run c m) (run-AreKeys c m h) ∙ ap (cell_all s cs) (find-run s c m h)
