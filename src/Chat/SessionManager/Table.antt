-- ===== src/Chat/SessionManager/Table.antt =====
-- The session table: what `CreateSession`, `GetSession`, `RemoveSession` and `RemoveByClient` do to it.
use highp_mmorpg.Prelude.{
  ℕ, ◌≡◌, ◌≢◌, refl, subst, inl, inr, Bool, true, false, not, List, [], ◌∷◌, Option, none, some,
  arith, All, ◌==◌, if◌then◌else◌, Bool-cases, length,
}
use highp_mmorpg.Chat.Session.{Session, Net, is_same_session}
use highp_mmorpg.Chat.SessionManager.{
  SessionManager, assign, find_key, erase_key, erase_if, find_if, second, create_session,
  get_session, get_session_by_client, remove_session, remove_by_client,
}
use highp_mmorpg.Chat.RoomManager.Places.{length-erase_if}

module _ {ℓ} {V : Type ℓ} where
  -- A key stands in the table once at most.
  abbrev pub Absent : ℕ → List (ℕ × V) → Type 0
  Absent key m = All (λ (entry : ℕ × V). entry.0 ≢ key) m

  abbrev pub AreKeys : List (ℕ × V) → Type 0
  AreKeys [] = Unit
  AreKeys ((k, v) ∷ m) = Absent k m × AreKeys m

  pub find-assign :
      (key other : ℕ) (v : V) (m : List (ℕ × V))
      → find_key other (assign key v m) ≡ (if key == other then some v else find_key other m)
  find-assign key other v [] = refl
  find-assign key other v ((k, u) ∷ m) = ground (arith, find-assign key other v m)

  assign-Absent :
      (key k : ℕ) (v : V) (m : List (ℕ × V)) → Absent k m → key ≢ k → Absent k (assign key v m)
  assign-Absent key k v [] h apart = (apart, tt)
  assign-Absent key k v ((j, u) ∷ m) h apart = elim (Bool-cases (j == key)) [
    | inl here ↦ rw here (apart, h.1)
    | inr away ↦ rw away (h.0, assign-Absent key k v m h.1 apart)
  ]

  pub assign-keys : (key : ℕ) (v : V) (m : List (ℕ × V)) → AreKeys m → AreKeys (assign key v m)
  assign-keys key v [] h = (tt, tt)
  assign-keys key v ((j, u) ∷ m) h = elim (Bool-cases (j == key)) [
    | inl here ↦
        let same : j ≡ key = ground arith in rw here (subst (λ k. Absent k m) same h.0, h.1)
    | inr away ↦
        rw away (assign-Absent key j v m h.0 (λ e. absurd (ground arith)), assign-keys key v m h.1)
  ]

  pub find-Absent : (key : ℕ) (m : List (ℕ × V)) → Absent key m → find_key key m ≡ none
  find-Absent key [] h = refl
  find-Absent key ((j, u) ∷ m) h = ground (arith, h.0, find-Absent key m h.1)

  pub find-erase :
      (key other : ℕ) (m : List (ℕ × V))
      → AreKeys m
      → find_key other (erase_key key m) ≡ (if key == other then none else find_key other m)
  find-erase key other [] h = ground arith
  find-erase key other ((k, u) ∷ m) h = elim (Bool-cases (k == key)) [
    | inl here ↦ let same : k ≡ key = ground arith in ground (arith, find-Absent k m h.0)
    | inr away ↦ ground (arith, find-erase key other m h.1)
  ]

abbrev pub is_none {ℓ} : {A : Type ℓ} → Option A → Bool
is_none none = true
is_none (some a) = false

-- `CreateSession` puts a session for the slot under the counter's value, which `GetSession` then
-- finds. Sessions under other ids stay.
pub get_session-create_session :
    (slot : ℕ) (m : SessionManager) (id : ℕ)
    → let (session, m') = create_session slot m in
      (session.client ≡ slot)
      × (get_session id m' ≡ (if m.session_counter == id then some session else get_session id m))
unfolding create_session get_session
get_session-create_session slot m id = (refl, find-assign m.session_counter id _ m.sessions)

-- In a table without double keys `RemoveSession` tells whether there was a session of the id, and
-- `GetSession` finds none under it then. Sessions under other ids stay.
pub get_session-remove_session :
    (id other : ℕ) (m : SessionManager)
    → AreKeys m.sessions
    → let (removed, m') = remove_session id m in
      (removed ≡ not (is_none (get_session id m)))
      × (get_session other m' ≡ (if id == other then none else get_session other m))
unfolding remove_session get_session
get_session-remove_session id other m h =
    (flag (find_key id m.sessions), find-erase id other m.sessions h)
  where
    flag : (o : Option Session) → (elim o [ none ↦ false | some _ ↦ true ]) ≡ not (is_none o)
    flag none = refl
    flag (some s) = refl

-- After `RemoveByClient` no session is found for the slot, and it tells whether there was one.
pub get_session_by_client-remove_by_client :
    (net : Net) (slot : ℕ) (m : SessionManager)
    → let (removed, m') = remove_by_client net slot m in
      (get_session_by_client net slot m' ≡ none)
      × (removed ≡ not (is_none (get_session_by_client net slot m)))
unfolding remove_by_client get_session_by_client
get_session_by_client-remove_by_client net slot m = (none_left m.sessions, told m.sessions)
  where
    none_left :
        (ss : List (ℕ × Session))
        → second (
            find_if
              (λ entry. is_same_session net entry.1 slot)
              (erase_if (λ entry. is_same_session net entry.1 slot) ss))
          ≡ none
    none_left [] = refl
    none_left ((k, s) ∷ ss) = elim (Bool-cases (is_same_session net s slot)) [
      | inl here ↦ rw here (none_left ss)
      | inr away ↦ rw away (rw away (none_left ss))
    ]

    told :
        (ss : List (ℕ × Session))
        → not (length ss == length (erase_if (λ entry. is_same_session net entry.1 slot) ss))
          ≡ not (is_none (second (find_if (λ entry. is_same_session net entry.1 slot) ss)))
    told [] = refl
    told ((k, s) ∷ ss) = elim (Bool-cases (is_same_session net s slot)) [
      | inl here ↦
          let fewer =
            length-erase_if (λ (entry : ℕ × Session). is_same_session net entry.1 slot) ss in
          rw here (ground arith)
      | inr away ↦ rw away (ground (arith, told ss))
    ]

-- `CreateSession` puts a session for the slot under the counter's value, where `GetSession` finds it. In a
-- table without double keys `RemoveSession` tells whether there was a session of the id, and `GetSession`
-- finds none under it then. Sessions under other ids stay, in both cases. After `RemoveByClient` no
-- session is found for the slot, and it tells whether there was one.
pub session_calls :
    (net : Net) (slot id other : ℕ) (m : SessionManager)
    → AreKeys m.sessions
    → let (session, created) = create_session slot m in
      let (removed, rest) = remove_session id m in
      let (closed, left) = remove_by_client net slot m in
      (session.client ≡ slot)
      × (get_session other created
          ≡ (if m.session_counter == other then some session else get_session other m))
      × (removed ≡ not (is_none (get_session id m)))
      × (get_session other rest ≡ (if id == other then none else get_session other m))
      × (get_session_by_client net slot left ≡ none)
      × (closed ≡ not (is_none (get_session_by_client net slot m)))
session_calls net slot id other m h =
    let (same, found) = get_session-create_session slot m other in
    let (told, gone) = get_session-remove_session id other m h in
    let (none_left, counted) = get_session_by_client-remove_by_client net slot m in
    (same, found, told, gone, none_left, counted)
