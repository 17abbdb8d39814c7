-- ===== src/Chat/Game/Safety.antt =====
-- What the handlers of the chat server keep: rooms are within their capacity, the room id of every known
-- user is that of a room that exists, and no null pointer is used.
use highp_mmorpg.Prelude.{
  ℕ, ◌%◌, ◌^◌, ◌<◌, ◌≡◌, refl, sym, subst, ◌∙◌, inl, inr, List, [], ◌∷◌, some, arith, All-get, ◌==◌,
  Bool-cases, Option-cases, List-cases, length-append,
}
use highp_mmorpg.Client.{Posted}
use highp_mmorpg.Chat.Message.{Message}
use highp_mmorpg.Chat.Session.{User, Net}
use highp_mmorpg.Chat.SessionManager.{find_if}
use highp_mmorpg.Chat.UserManager.{create_user, get_user_by_client, remove_user_by_user_id}
use highp_mmorpg.Chat.Room.{Room, user_count, join, leave, broadcast_chat_message}
use highp_mmorpg.Chat.RoomManager.{get_or_create_available_room, get_room, kick_disconnected}
use highp_mmorpg.Chat.RoomManager.Places.{
  length-erase_user, HasRoom, room_index_lem, HasRoom-get, get_or_create_available_room_lem,
}
use highp_mmorpg.Chat.Game.{
  Game, c_str, room_id_at, connect, disconnect, stop, handle_join, handle_leave, handle_chat,
}
use highp_mmorpg.Chat.Game.Run.{
  Input, connected, disconnected, joins, leaves, says, slots_change, stops, start, step, run,
}
use highp_mmorpg.Chat.Game.Housing.{
  IsProper, AreHoused, IsSafe, housed-ids, housed-assign, housed-erase_key, add_room-IsSafe,
  init-IsSafe, at_room-IsSafe, kick-IsProper, create_user_lem, get_user_housed,
}

module _ (wsa : ℕ → Posted) (encode : Message → List ℕ) where
  join-IsProper :
      (capacity : ℕ) (user : User) (r : Room) (net : Net)
      → user_count r < capacity
      → r.id < 2 ^ 32
      → IsProper capacity (join wsa encode (some user) r net).0
        × ((join wsa encode (some user) r net).0.id ≡ r.id)
  unfolding join user_count
  join-IsProper capacity user r net h k =
      ((omega (arith, length-append r.users (user ∷ [])), k), refl)

  leave-IsProper :
      (capacity id : ℕ) (r : Room) (net : Net)
      → IsProper capacity r
      → IsProper capacity (leave wsa encode id r net).0 × ((leave wsa encode id r net).0.id ≡ r.id)
  unfolding leave user_count
  leave-IsProper capacity id r net h = elim (List-cases r.users) [
    | inl e ↦ rw (e, leave) (h, refl)
    | inr (u, us, e) ↦ elim (Option-cases (find_if (λ (u : User). u.id == id) r.users)) [
      | inl f ↦ rw (e, f, leave) (h, refl)
      | inr (found, f) ↦
          rw (e, f, leave) ((omega (arith, h.0, length-erase_user id r.users), h.1), refl)
    ]
  ]

  join-IsSafe :
      (slot sequence : ℕ) (name : List ℕ) (g : Game)
      → IsSafe g.rooms g.users.users g.crashed
      → let g' = handle_join wsa encode slot sequence name g in
        IsSafe g'.rooms g'.users.users g'.crashed
  unfolding handle_join
  join-IsSafe slot sequence name g v =
      let (i, m) = get_or_create_available_room g.rooms in
      let (r, found, room, alternatives) = get_or_create_available_room_lem g.rooms v.capacity in
      let w : IsSafe m g.users.users g.crashed = elim alternatives [
        | inl same ↦ rw same v
        | inr more ↦ rw more (add_room-IsSafe v)
      ] in
      let fine : IsProper m.max_room_capacity r =
        All-get (IsProper m.max_room_capacity) m.rooms i r w.proper found in
      let same_capacity : m.max_room_capacity ≡ g.rooms.max_room_capacity = elim alternatives [
        | inl same ↦ rw same refl
        | inr more ↦ rw more refl
      ] in
      let g₁ = record g { rooms = m } in
      let room_id : room_id_at i g₁ ≡ r.id = rw (found, room_id_at) refl in
      let made = create_user g₁.net g₁.sessions slot (c_str name) (room_id_at i g₁) g₁.users in
      elim (create_user_lem g₁.net g₁.sessions slot (c_str name) (room_id_at i g₁) g₁.users) [
        | inl (e, same) ↦ rw (e, same, handle_join) w
        | inr (user, e, home, table) ↦
            let in_room : user.room_id ≡ r.id = home ∙ omega (arith, room_id, fine.1) in
            let house : HasRoom user.room_id m.rooms =
              subst (λ k. HasRoom k m.rooms) (sym in_room) (HasRoom-get m.rooms i r found) in
            let g₂ = record g₁ { users = made.1 } in
            let w₂ : IsSafe m g₂.users.users g.crashed = record {
              capacity = w.capacity;
              proper = w.proper;
              counter = w.counter;
              housed =
                  subst (λ us. AreHoused us m.rooms) (sym table)
                    (housed-assign g.users.user_id_counter user g.users.users m.rooms w.housed
                      house);
              whole = w.whole;
            } in
            let joined =
              join-IsProper m.max_room_capacity user r g.net (omega (arith, room, same_capacity))
                fine.1 in
            rw (e, handle_join)
              (at_room-IsSafe i (join wsa encode (some user)) g₂ r w₂ found joined.0 joined.1)
      ]

  leave-IsSafe :
      (slot sequence : ℕ) (g : Game)
      → IsSafe g.rooms g.users.users g.crashed
      → let g' = handle_leave wsa encode slot sequence g in
        IsSafe g'.rooms g'.users.users g'.crashed
  unfolding handle_leave remove_user_by_user_id get_room
  leave-IsSafe slot sequence g v = elim (Option-cases (get_user_by_client g.net slot g.users)) [
    | inl e ↦ rw (e, handle_leave) v
    | inr (user, e) ↦
        let (i, f) = get_user_housed slot g v user e in
        let (r, found, same) = room_index_lem user.room_id g.rooms.rooms i f in
        let fine : IsProper g.rooms.max_room_capacity r =
          All-get (IsProper g.rooms.max_room_capacity) g.rooms.rooms i r v.proper found in
        let left = leave-IsProper g.rooms.max_room_capacity user.id r g.net fine in
        let w = at_room-IsSafe i (leave wsa encode user.id) g r v found left.0 left.1 in
        rw (e, f, handle_leave, get_room)
          (record {
            capacity = w.capacity;
            proper = w.proper;
            counter = w.counter;
            housed = housed-erase_key user.id _ _ w.housed;
            whole = w.whole;
          })
  ]

  chat-IsSafe :
      (slot sequence now : ℕ) (message : List ℕ) (g : Game)
      → IsSafe g.rooms g.users.users g.crashed
      → let g' = handle_chat wsa encode slot sequence now message g in
        IsSafe g'.rooms g'.users.users g'.crashed
  unfolding handle_chat get_room
  chat-IsSafe slot sequence now message g v =
      elim (Option-cases (get_user_by_client g.net slot g.users)) [
        | inl e ↦ rw (e, handle_chat) v
        | inr (user, e) ↦
            let (i, f) = get_user_housed slot g v user e in
            let (r, found, same) = room_index_lem user.room_id g.rooms.rooms i f in
            let fine : IsProper g.rooms.max_room_capacity r =
              All-get (IsProper g.rooms.max_room_capacity) g.rooms.rooms i r v.proper found in
            rw (e, f, handle_chat, get_room)
              (at_room-IsSafe i
                (λ r net. (
                  r,
                  broadcast_chat_message wsa encode (user.id % 2 ^ 32) user.id user.name message
                      sequence now r net,
                ))
                g r v found fine refl)
      ]

  step-IsSafe :
      (input : Input) (g : Game)
      → IsSafe g.rooms g.users.users g.crashed
      → let g' = step wsa encode input g in IsSafe g'.rooms g'.users.users g'.crashed
  unfolding step connect stop disconnect kick_disconnected
  step-IsSafe (connected slot) g v = elim (Bool-cases g.has_stopped) [
    | inl e ↦ rw (e, connect) v
    | inr e ↦ rw (e, connect) v
  ]
  step-IsSafe (disconnected slot) g v =
      let (fine, same) =
        kick-IsProper g.net slot g.rooms.max_room_capacity g.rooms.rooms v.proper in
      record {
        capacity = v.capacity;
        proper = fine;
        counter = v.counter;
        housed = housed-ids g.users.users g.rooms.rooms _ (sym same) v.housed;
        whole = v.whole;
      }
  step-IsSafe (joins slot sequence name) g v = join-IsSafe slot sequence name g v
  step-IsSafe (leaves slot sequence) g v = leave-IsSafe slot sequence g v
  step-IsSafe (says slot sequence now message) g v = chat-IsSafe slot sequence now message g v
  step-IsSafe stops g v = elim (Bool-cases g.has_stopped) [
    | inl e ↦ rw (e, stop) v
    | inr e ↦ rw (e, stop) v
  ]
  step-IsSafe (slots_change slots) g v = v

  run_from :
      (inputs : List Input) (g : Game)
      → IsSafe g.rooms g.users.users g.crashed
      → let g' = run wsa encode inputs g in IsSafe g'.rooms g'.users.users g'.crashed
  unfolding run
  run_from [] g v = v
  run_from (i ∷ is) g v = run_from is (step wsa encode i g) (step-IsSafe i g v)

  -- From the managers as they are made, and with rooms that may hold anyone at all, no events, in
  -- whatever order and whatever becomes of the slots between them, put more users into a room than
  -- it may hold, leave a known user with the id of a room that does not exist, or have a null pointer used.
  -- Whether the user stands in the list of that room is not said.
  pub run-IsSafe :
      (inputs : List Input) (rooms capacity : ℕ) (net : Net)
      → 0 < capacity
      → let g = run wsa encode inputs (start rooms capacity net) in
        IsSafe g.rooms g.users.users g.crashed
  run-IsSafe inputs rooms capacity net h =
      run_from inputs (start rooms capacity net) (init-IsSafe rooms capacity h)
