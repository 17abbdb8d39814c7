-- ===== src/Chat/Game/Housing.antt =====
-- What is kept of the rooms and of the users' rooms, and what the managers' operations do to it.
use highp_mmorpg.Prelude.{
  ℕ, zero, suc, ◌%◌, ◌^◌, ◌≤◌, ◌<◌, ◌≡◌, refl, sym, ap, subst, ◌∙◌, ◌⊎◌, inl, inr, Bool, false,
  List, [], ◌∷◌, ◌++◌, none, some, arith, All, All-append, All-set, ◌==◌, Bool-cases, Option-cases,
  map, get_elem?,
}
use highp_mmorpg.Chat.Session.{User, Net, is_same_client}
use highp_mmorpg.Chat.SessionManager.{
  SessionManager, second, assign, erase_key, find_if, get_session_by_client,
}
use highp_mmorpg.Chat.UserManager.{UserManager, create_user, get_user_by_client}
use highp_mmorpg.Chat.Room.{Room, user_count, kick_by_disconnected}
use highp_mmorpg.Chat.RoomManager.{RoomManager, fresh_room, add_room, init}
use highp_mmorpg.Chat.RoomManager.Places.{
  length-erase_if, ids, HasRoom, room_index-ids, HasRoom-append, ids-set,
}
use highp_mmorpg.Chat.Game.{Game, at_room}

-- A room holds no more users than it may, and its id is a `uint32_t`.
abbrev pub IsProper : ℕ → Room → Type 0
IsProper capacity r = (user_count r ≤ capacity) × (r.id < 2 ^ 32)

-- The room id of every user of the table is that of a room that exists.
abbrev pub AreHoused : List (ℕ × User) → List Room → Type 0
AreHoused us rs = All (λ (entry : ℕ × User). HasRoom entry.1.room_id rs) us

-- The rooms, the users, and whether a null pointer has been used.
pub record IsSafe (m : RoomManager) (us : List (ℕ × User)) (crashed : Bool) : Type 0 where
  pub capacity : 0 < m.max_room_capacity
  pub proper : All (IsProper m.max_room_capacity) m.rooms
  pub counter : m.room_counter < 2 ^ 32
  pub housed : AreHoused us m.rooms
  pub whole : crashed ≡ false

pub housed-ids :
    (us : List (ℕ × User)) (rs ss : List Room) → ids rs ≡ ids ss → AreHoused us rs → AreHoused us ss
housed-ids [] rs ss e h = tt
housed-ids ((k, u) ∷ us) rs ss e h =
    ((h.0.0, sym (room_index-ids u.room_id rs ss e) ∙ h.0.1), housed-ids us rs ss e h.1)

pub housed-append :
    (us : List (ℕ × User)) (rs ss : List Room) → AreHoused us rs → AreHoused us (rs ++ ss)
housed-append [] rs ss h = tt
housed-append ((k, u) ∷ us) rs ss h =
    (HasRoom-append u.room_id rs ss h.0, housed-append us rs ss h.1)

pub housed-assign :
    (key : ℕ) (u : User) (us : List (ℕ × User)) (rs : List Room)
    → AreHoused us rs
    → HasRoom u.room_id rs
    → AreHoused (assign key u us) rs
housed-assign key u [] rs h k = (k, tt)
housed-assign key u ((j, v) ∷ us) rs h k = elim (Bool-cases (j == key)) [
  | inl here ↦ rw here (k, h.1)
  | inr away ↦ rw away (h.0, housed-assign key u us rs h.1 k)
]

pub housed-erase_key :
    (key : ℕ) (us : List (ℕ × User)) (rs : List Room)
    → AreHoused us rs
    → AreHoused (erase_key key us) rs
housed-erase_key key [] rs h = tt
housed-erase_key key ((j, v) ∷ us) rs h = elim (Bool-cases (j == key)) [
  | inl here ↦ rw here h.1
  | inr away ↦ rw away (h.0, housed-erase_key key us rs h.1)
]

pub add_room-IsSafe :
    {m : RoomManager} {us : List (ℕ × User)} {crashed : Bool}
    → IsSafe m us crashed
    → IsSafe (add_room m) us crashed
unfolding user_count
add_room-IsSafe {m = m} {us = us} v = record {
  capacity = v.capacity;
  proper =
      All-append (IsProper m.max_room_capacity) m.rooms _ v.proper ((omega arith, v.counter), tt);
  counter = omega arith;
  housed = housed-append us m.rooms (fresh_room m.room_counter ∷ []) v.housed;
  whole = v.whole;
}

pub init_capacity : (n capacity : ℕ) → (init n capacity).max_room_capacity ≡ capacity
unfolding init
init_capacity zero capacity = refl
init_capacity (suc n) capacity = init_capacity n capacity

pub init-IsSafe : (n capacity : ℕ) → 0 < capacity → IsSafe (init n capacity) [] false
unfolding init
init-IsSafe zero capacity h = record {
  capacity = h;
  proper = tt;
  counter = omega arith;
  housed = tt;
  whole = refl;
}
init-IsSafe (suc n) capacity h = add_room-IsSafe (init-IsSafe n capacity h)

-- A call on a room that exists keeps the game safe, if it keeps the room's id and its bound.
pub at_room-IsSafe :
    (i : ℕ) (call : Room → Net → Room × Net) (g : Game) (r : Room)
    → IsSafe g.rooms g.users.users g.crashed
    → get_elem? g.rooms.rooms i ≡ some r
    → IsProper g.rooms.max_room_capacity (call r g.net).0
    → (call r g.net).0.id ≡ r.id
    → let g' = at_room i call g in IsSafe g'.rooms g'.users.users g'.crashed
at_room-IsSafe i call g r v found fine same =
    rw (found, at_room)
      (record {
        capacity = v.capacity;
        proper =
            All-set (IsProper g.rooms.max_room_capacity) g.rooms.rooms i (call r g.net).0 v.proper
              fine;
        counter = v.counter;
        housed =
            housed-ids g.users.users g.rooms.rooms _
              (sym (ids-set g.rooms.rooms i r (call r g.net).0 found same)) v.housed;
        whole = v.whole;
      })

pub kick-IsProper :
    (net : Net) (slot capacity : ℕ) (rs : List Room)
    → All (IsProper capacity) rs
    → All (IsProper capacity) (map (kick_by_disconnected net slot) rs)
      × (ids (map (kick_by_disconnected net slot) rs) ≡ ids rs)
unfolding kick_by_disconnected user_count
kick-IsProper net slot capacity [] h = (tt, refl)
kick-IsProper net slot capacity (r ∷ rs) h =
    let rest = kick-IsProper net slot capacity rs h.1 in
    (
      (
        (
          omega (arith, h.0.0, length-erase_if (λ (u : User). is_same_client net u slot) r.users),
          h.0.1,
        ),
        rest.0,
      ),
      ap (◌∷◌ (r.id)) rest.1,
    )

pub create_user_lem :
    (net : Net) (sessions : SessionManager) (slot : ℕ) (name : List ℕ) (room_id : ℕ)
    (m : UserManager)
    → let (made, m') = create_user net sessions slot name room_id m in
      ((made ≡ none) × (m' ≡ m))
      ⊎ ((user : User) × (made ≡ some user)
          × (user.room_id ≡ room_id % 2 ^ 32)
          × (m'.users ≡ assign m.user_id_counter user m.users))
unfolding create_user
create_user_lem net sessions slot name room_id m =
    elim (Option-cases (get_session_by_client net slot sessions)) [
      | inl e ↦ rw (e, create_user) (inl (refl, refl))
      | inr (session, e) ↦ elim (Option-cases (get_user_by_client net slot m)) [
        | inl f ↦ rw (e, f, create_user) (inr (_, refl, refl, refl))
        | inr (existing, f) ↦ rw (e, f, create_user) (inl (refl, refl))
      ]
    ]

pub get_user_housed :
    (slot : ℕ) (g : Game)
    → IsSafe g.rooms g.users.users g.crashed
    → (user : User) → get_user_by_client g.net slot g.users ≡ some user
    → HasRoom user.room_id g.rooms.rooms
unfolding get_user_by_client
get_user_housed slot g v user e =
    second_housed (λ entry. is_same_client g.net entry.1 slot) g.users.users g.rooms.rooms v.housed
      user e
  where
    second_housed :
        (p : ℕ × User → Bool) (us : List (ℕ × User)) (rs : List Room)
        → AreHoused us rs
        → (user : User) → second (find_if p us) ≡ some user
        → HasRoom user.room_id rs
    second_housed p [] rs h user e = absurd (ground arith)
    second_housed p ((k, u) ∷ us) rs h user e = elim (Bool-cases (p (k, u))) [
      | inl here ↦
          subst (λ (x : User). HasRoom x.room_id rs) (let same : u ≡ user = ground arith in same)
            h.0
      | inr away ↦ second_housed p us rs h.1 user (ground arith)
    ]
