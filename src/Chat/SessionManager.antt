-- ===== src/Chat/SessionManager.antt =====
-- exec/chat/chat-server/chat-server/SessionManager.cpp. Each method holds the lock, so it is one step.
pub mod Table
use highp_mmorpg.Prelude.{
  ℕ, suc, ◌+◌, ◌%◌, ◌^◌, Bool, true, false, not, List, [], ◌∷◌, ◌++◌, Option, none, some, ◌==◌,
  if◌then◌else◌, length,
}
use highp_mmorpg.Chat.Session.{Session, Net, is_same_session}

-- `_sessions`, in the order of iteration, and `_sessionCounter`.
pub record SessionManager : Type 0 where
  pub sessions : List (ℕ × Session)
  pub session_counter : ℕ

-- `map[key] = value`
abbrev pub assign {ℓ} : {V : Type ℓ} → ℕ → V → List (ℕ × V) → List (ℕ × V)
assign key value [] = (key, value) ∷ []
assign key value ((k, v) ∷ m) = if k == key then (key, value) ∷ m else (k, v) ∷ assign key value m

-- `map.find(key)`
abbrev pub find_key {ℓ} : {V : Type ℓ} → ℕ → List (ℕ × V) → Option V
find_key key [] = none
find_key key ((k, v) ∷ m) = if k == key then some v else find_key key m

-- `map.erase(key)`; a key stands once at most.
abbrev pub erase_key {ℓ} : {V : Type ℓ} → ℕ → List (ℕ × V) → List (ℕ × V)
erase_key key [] = []
erase_key key ((k, v) ∷ m) = if k == key then m else (k, v) ∷ erase_key key m

-- `std::erase_if`
abbrev pub erase_if {ℓ} : {A : Type ℓ} → (A → Bool) → List A → List A
erase_if p [] = []
erase_if p (x ∷ xs) = if p x then erase_if p xs else x ∷ erase_if p xs

-- `std::find_if`
abbrev pub find_if {ℓ} : {A : Type ℓ} → (A → Bool) → List A → Option A
find_if p [] = none
find_if p (x ∷ xs) = if p x then some x else find_if p xs

-- `SessionManager::CreateSession`
unfoldable pub create_session : ℕ → SessionManager → Session × SessionManager
create_session slot m =
    let session : Session = record { client = slot; id = m.session_counter } in
    (
      session,
      record m {
        sessions = assign m.session_counter session m.sessions;
        session_counter = (m.session_counter + 1) % 2 ^ 64;
      },
    )

-- `SessionManager::GetSession`
unfoldable pub get_session : ℕ → SessionManager → Option Session
get_session id m = find_key id m.sessions

abbrev pub second {ℓ} : {V : Type ℓ} → Option (ℕ × V) → Option V
second none = none
second (some (k, v)) = some v

-- `SessionManager::GetSessionByClient`
unfoldable pub get_session_by_client : Net → ℕ → SessionManager → Option Session
get_session_by_client net slot m =
    second (find_if (λ entry. is_same_session net entry.1 slot) m.sessions)

-- `SessionManager::RemoveSession`
unfoldable pub remove_session : ℕ → SessionManager → Bool × SessionManager
remove_session id m = (
  elim (find_key id m.sessions) [ none ↦ false | some _ ↦ true ],
  record m { sessions = erase_key id m.sessions },
)

-- `SessionManager::RemoveByClient`
unfoldable pub remove_by_client : Net → ℕ → SessionManager → Bool × SessionManager
remove_by_client net slot m =
    let rest = erase_if (λ entry. is_same_session net entry.1 slot) m.sessions in
    (not (length m.sessions == length rest), record m { sessions = rest })
