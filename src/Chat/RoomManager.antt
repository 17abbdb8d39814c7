-- ===== src/Chat/RoomManager.antt =====
-- exec/chat/chat-server/chat-server/room/RoomManager.cpp. Each method holds the lock, so it is one
-- step. A `shared_ptr` or pointer to a room is the room's place in the list.
pub mod Destroy
pub mod Places
use highp_mmorpg.Prelude.{
  ℕ, zero, suc, ◌+◌, ◌%◌, ◌^◌, Bool, true, false, not, ◌||◌, List, [], ◌∷◌, ◌++◌, Option, none,
  some, ltb, ◌==◌, if◌then◌else◌, length, map, get_elem?, set,
}
use highp_mmorpg.Chat.Session.{Net}
use highp_mmorpg.Chat.SessionManager.{erase_if}
use highp_mmorpg.Chat.Room.{Room, user_count, kick_by_disconnected}

-- `_rooms`, `_roomCounter` and `_maxRoomCapacity`
pub record RoomManager : Type 0 where
  pub rooms : List Room
  pub room_counter : ℕ
  pub max_room_capacity : ℕ

abbrev pub fresh_room : ℕ → Room
fresh_room id = record { id = id; users = [] }

-- A room is made under the next number, behind the others.
abbrev pub add_room : RoomManager → RoomManager
add_room m = record m {
  rooms = m.rooms ++ fresh_room m.room_counter ∷ [];
  room_counter = (m.room_counter + 1) % 2 ^ 32;
}

-- The constructor: that many rooms to begin with.
unfoldable pub init : (init_room_count max_room_capacity : ℕ) → RoomManager
init zero capacity = record { rooms = []; room_counter = 0; max_room_capacity = capacity }
init (suc n) capacity = add_room (init n capacity)

-- `RoomManager::CreateRoom`
unfoldable pub create_room : Option ℕ → RoomManager → ℕ × RoomManager
create_room none m = (length m.rooms, add_room m)
create_room (some id) m = (length m.rooms, record m { rooms = m.rooms ++ fresh_room id ∷ [] })

-- The loop of `GetOrCreateAvailableRoom`: the place of the first room that has a place left.
unfoldable pub first_available : ℕ → List Room → Option ℕ
first_available capacity [] = none
first_available capacity (r ∷ rs) =
    let rest : Option ℕ = elim (first_available capacity rs) [
      | none ↦ none
      | some i ↦ some (suc i)
    ] in
    if ltb (user_count r) capacity then some 0 else rest

-- `RoomManager::GetOrCreateAvailableRoom`
unfoldable pub get_or_create_available_room : RoomManager → ℕ × RoomManager
get_or_create_available_room m = elim (first_available m.max_room_capacity m.rooms) [
  | some i ↦ (i, m)
  | none ↦ (length m.rooms, add_room m)
]

-- `RoomManager::DestroyRoom`
unfoldable pub destroy_room : ℕ → RoomManager → Bool × RoomManager
destroy_room room_id m =
    let rest = erase_if (λ (r : Room). r.id == room_id) m.rooms in
    (not (length m.rooms == length rest), record m { rooms = rest })

abbrev pub any_room : (Room → Bool) → List Room → Bool
any_room p [] = false
any_room p (r ∷ rs) = p r || any_room p rs

-- `RoomManager::IsRoomExist`
unfoldable pub is_room_exist : ℕ → RoomManager → Bool
is_room_exist room_id m = any_room (λ (r : Room). r.id == room_id) m.rooms

-- The search of `GetRoom`.
unfoldable pub room_index : ℕ → List Room → Option ℕ
room_index room_id [] = none
room_index room_id (r ∷ rs) =
    let rest : Option ℕ = elim (room_index room_id rs) [ none ↦ none | some i ↦ some (suc i) ] in
    if r.id == room_id then some 0 else rest

-- `RoomManager::GetRoom`; `none` is the null pointer.
unfoldable pub get_room : ℕ → RoomManager → Option ℕ
get_room room_id m = room_index room_id m.rooms

-- `RoomManager::KickDisconnected`
unfoldable pub kick_disconnected : Net → ℕ → RoomManager → RoomManager
kick_disconnected net slot m = record m { rooms = map (kick_by_disconnected net slot) m.rooms }
