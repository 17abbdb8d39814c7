-- ===== src/Chat/RoomManager/Places.antt =====
-- Rooms by their place in the list and by their id, and how full they are.
use highp_mmorpg.Prelude.{
  ℕ, zero, suc, ◌≤◌, ◌<◌, ◌≡◌, refl, sym, ap, ◌∙◌, ◌⊎◌, inl, inr, Bool, List, [], ◌∷◌, ◌++◌, some,
  arith, ltb, ◌==◌, Bool-cases, Option-cases, length, map, get_elem?, set,
}
use highp_mmorpg.Chat.SessionManager.{erase_if}
use highp_mmorpg.Chat.Session.{User}
use highp_mmorpg.Chat.Room.{Room, erase_user, user_count}
use highp_mmorpg.Chat.RoomManager.{
  RoomManager, fresh_room, add_room, first_available, get_or_create_available_room, room_index,
}

pub length-erase_if {ℓ} :
    {A : Type ℓ} (p : A → Bool) (xs : List A) → length (erase_if p xs) ≤ length xs
length-erase_if p [] = omega arith
length-erase_if p (x ∷ xs) = ground (arith, length-erase_if p xs)

pub length-erase_user : (id : ℕ) (us : List User) → length (erase_user id us) ≤ length us
length-erase_user id [] = omega arith
length-erase_user id (u ∷ us) = ground (arith, length-erase_user id us)

-- The ids of the rooms, in their order.
abbrev pub ids : List Room → List ℕ
ids rs = map (λ r. r.id) rs

-- A room of that id is in the list.
abbrev pub HasRoom : ℕ → List Room → Type 0
HasRoom id rs = (i : ℕ) × (room_index id rs ≡ some i)

pub room_index-ids :
    (id : ℕ) (rs ss : List Room) → ids rs ≡ ids ss → room_index id rs ≡ room_index id ss
unfolding room_index
room_index-ids id [] [] e = refl
room_index-ids id [] (s ∷ ss) e = absurd (ground arith)
room_index-ids id (r ∷ rs) [] e = absurd (ground arith)
room_index-ids id (r ∷ rs) (s ∷ ss) e =
    let head : r.id ≡ s.id = ground arith in
    let tail : ids rs ≡ ids ss = ground arith in rw (head, room_index-ids id rs ss tail) refl

-- The place that is found is that of a room with the id.
pub room_index_lem :
    (id : ℕ) (rs : List Room) (i : ℕ)
    → room_index id rs ≡ some i
    → (r : Room) × (get_elem? rs i ≡ some r) × (r.id ≡ id)
unfolding room_index
room_index_lem id [] i e = absurd (ground arith)
room_index_lem id (r ∷ rs) zero e = elim (Bool-cases (r.id == id)) [
  | inl here ↦ (r, refl, ground arith)
  | inr away ↦ elim (Option-cases (room_index id rs)) [
    | inl f ↦ absurd (ground arith)
    | inr (j, f) ↦ absurd (ground arith)
  ]
]
room_index_lem id (r ∷ rs) (suc i) e = elim (Bool-cases (r.id == id)) [
  | inl here ↦ absurd (ground arith)
  | inr away ↦ elim (Option-cases (room_index id rs)) [
    | inl f ↦ absurd (ground arith)
    | inr (j, f) ↦ room_index_lem id rs i (ground arith)
  ]
]

pub HasRoom-get : (rs : List Room) (i : ℕ) (r : Room) → get_elem? rs i ≡ some r → HasRoom r.id rs
unfolding room_index
HasRoom-get [] i r e = absurd (ground arith)
HasRoom-get (s ∷ ss) zero r e = let same : s.id ≡ r.id = ground arith in (0, ground arith)
HasRoom-get (s ∷ ss) (suc i) r e =
    let (j, f) = HasRoom-get ss i r e in
    elim (Bool-cases (s.id == r.id)) [
      | inl here ↦ (0, ground arith)
      | inr away ↦ (suc j, ground arith)
    ]

pub HasRoom-append : (id : ℕ) (rs ss : List Room) → HasRoom id rs → HasRoom id (rs ++ ss)
unfolding room_index
HasRoom-append id [] ss (i, e) = absurd (ground arith)
HasRoom-append id (r ∷ rs) ss (i, e) = elim (Bool-cases (r.id == id)) [
  | inl here ↦ (0, ground arith)
  | inr away ↦ elim (Option-cases (room_index id rs)) [
    | inl f ↦ absurd (ground arith)
    | inr (j, f) ↦ let (k, g) = HasRoom-append id rs ss (j, f) in (suc k, ground arith)
  ]
]

pub get-append : (rs ss : List Room) (r : Room) → get_elem? (rs ++ r ∷ ss) (length rs) ≡ some r
get-append [] ss r = refl
get-append (s ∷ rs) ss r = get-append rs ss r

pub ids-set :
    (rs : List Room) (i : ℕ) (r r' : Room)
    → get_elem? rs i ≡ some r
    → r'.id ≡ r.id
    → ids (set rs i r') ≡ ids rs
ids-set [] i r r' e same = refl
ids-set (s ∷ ss) zero r r' e same =
    let same_room : s ≡ r = ground arith in
    ap (λ k. k ∷ ids ss) (same ∙ sym (ap (λ (x : Room). x.id) same_room))
ids-set (s ∷ ss) (suc i) r r' e same = ap (◌∷◌ (s.id)) (ids-set ss i r r' e same)

pub first_available_lem :
    (capacity : ℕ) (rs : List Room) (i : ℕ)
    → first_available capacity rs ≡ some i
    → (r : Room) × (get_elem? rs i ≡ some r) × (user_count r < capacity)
unfolding first_available
first_available_lem capacity [] i e = absurd (ground arith)
first_available_lem capacity (r ∷ rs) zero e = elim (Bool-cases (ltb (user_count r) capacity)) [
  | inl here ↦ (r, refl, ground arith)
  | inr away ↦ elim (Option-cases (first_available capacity rs)) [
    | inl f ↦ absurd (ground arith)
    | inr (j, f) ↦ absurd (ground arith)
  ]
]
first_available_lem capacity (r ∷ rs) (suc i) e = elim (Bool-cases (ltb (user_count r) capacity)) [
  | inl here ↦ absurd (ground arith)
  | inr away ↦ elim (Option-cases (first_available capacity rs)) [
    | inl f ↦ absurd (ground arith)
    | inr (j, f) ↦ first_available_lem capacity rs i (ground arith)
  ]
]

-- A room that is given to a user has a place left, whether it was found or made, if a room may hold
-- anyone at all.
pub get_or_create_available_room_lem :
    (m : RoomManager)
    → 0 < m.max_room_capacity
    → let (i, m') = get_or_create_available_room m in
      (r : Room) × (get_elem? m'.rooms i ≡ some r)
      × (user_count r < m.max_room_capacity)
      × ((m' ≡ m) ⊎ (m' ≡ add_room m))
unfolding get_or_create_available_room user_count
get_or_create_available_room_lem m h =
    elim (Option-cases (first_available m.max_room_capacity m.rooms)) [
      | inl e ↦
          rw (e, get_or_create_available_room)
            (
              fresh_room m.room_counter,
              get-append m.rooms [] (fresh_room m.room_counter),
              h,
              inr refl,
            )
      | inr (i, e) ↦
          let (r, found, room) = first_available_lem m.max_room_capacity m.rooms i e in
          rw (e, get_or_create_available_room) (r, found, room, inl refl)
    ]
