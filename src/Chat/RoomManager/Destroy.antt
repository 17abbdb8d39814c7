-- ===== src/Chat/RoomManager/Destroy.antt =====
-- `RoomManager::DestroyRoom`, `IsRoomExist` and `GetRoom` together.
use highp_mmorpg.Prelude.{
  ℕ, ◌≡◌, ◌≢◌, ◌↔◌, inl, inr, refl, false, not, List, [], ◌∷◌, none, arith, ◌==◌, Option-cases,
  length,
}
use highp_mmorpg.Chat.SessionManager.{erase_if}
use highp_mmorpg.Chat.Room.{Room}
use highp_mmorpg.Chat.RoomManager.{
  RoomManager, destroy_room, any_room, is_room_exist, room_index, get_room,
}
use highp_mmorpg.Chat.RoomManager.Places.{length-erase_if}

any_room-erase_if :
    (id : ℕ) (rs : List Room)
    → any_room (λ (r : Room). r.id == id) (erase_if (λ (r : Room). r.id == id) rs) ≡ false
any_room-erase_if id [] = refl
any_room-erase_if id (r ∷ rs) = ground (arith, any_room-erase_if id rs)

length-erased :
    (id : ℕ) (rs : List Room)
    → not (length rs == length (erase_if (λ (r : Room). r.id == id) rs))
      ≡ any_room (λ (r : Room). r.id == id) rs
length-erased id [] = refl
length-erased id (r ∷ rs) =
    ground (arith, length-erased id rs, length-erase_if (λ (r : Room). r.id == id) rs)

found :
    (id : ℕ) (rs : List Room)
    → (room_index id rs ≡ none) ↔ (any_room (λ (r : Room). r.id == id) rs ≡ false)
unfolding room_index
found id [] = ground arith
found id (r ∷ rs) = elim (Option-cases (room_index id rs)) [
  | inl e ↦ ground (arith, found id rs)
  | inr (i, e) ↦ ground (arith, found id rs)
]

-- `DestroyRoom` tells whether there was a room of the id, and leaves none of it: `IsRoomExist` denies
-- it then, and so does `GetRoom`. Rooms of other ids stay.
pub destroy_room_lem :
    (id : ℕ) (m : RoomManager)
    → let (destroyed, m') = destroy_room id m in
      (destroyed ≡ is_room_exist id m)
      × (is_room_exist id m' ≡ false)
      × (get_room id m' ≡ none)
      × ((other : ℕ) → other ≢ id → is_room_exist other m' ≡ is_room_exist other m)
unfolding destroy_room is_room_exist get_room
destroy_room_lem id m =
    let gone = any_room-erase_if id m.rooms in
    (
      length-erased id m.rooms,
      gone,
      (found id (erase_if (λ (r : Room). r.id == id) m.rooms)).1 gone,
      λ other apart. kept other apart m.rooms,
    )
  where
    kept :
        (other : ℕ)
        → other ≢ id
        → (rs : List Room)
        → any_room (λ (r : Room). r.id == other) (erase_if (λ (r : Room). r.id == id) rs)
          ≡ any_room (λ (r : Room). r.id == other) rs
    kept other apart [] = refl
    kept other apart (r ∷ rs) = ground (arith, kept other apart rs)
