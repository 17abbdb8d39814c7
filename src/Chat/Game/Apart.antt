-- ===== src/Chat/Game/Apart.antt =====
-- No two users of the chat server are on the same slot, whatever its clients do.
use highp_mmorpg.Prelude.{
  ℕ, ◌%◌, ◌^◌, ◌≡◌, refl, sym, subst, inl, inr, List, [], ◌∷◌, some, Bool-cases, Option-cases,
  get_elem?,
}
use highp_mmorpg.Client.{Posted}
use highp_mmorpg.Chat.Message.{Message}
use highp_mmorpg.Chat.Session.{Net}
use highp_mmorpg.Chat.UserManager.{UserManager, create_user, get_user_by_client}
use highp_mmorpg.Chat.UserManager.Slots.{AreApart, create_user-AreApart, remove-AreApart}
use highp_mmorpg.Chat.Room.{Room, join, leave, broadcast_chat_message}
use highp_mmorpg.Chat.RoomManager.{get_room, get_or_create_available_room}
use highp_mmorpg.Chat.Game.{
  Game, c_str, at_room, room_id_at, connect, stop, disconnect, handle_join, handle_leave,
  handle_chat,
}
use highp_mmorpg.Chat.Game.Run.{
  Input, connected, disconnected, joins, leaves, says, slots_change, stops, start, step, run,
}

users-at_room :
    (i : ℕ) (call : Room → Net → Room × Net) (g : Game) → (at_room i call g).users ≡ g.users
users-at_room i call g = elim (Option-cases (get_elem? g.rooms.rooms i)) [
  | inl e ↦ rw (e, at_room) refl
  | inr (r, e) ↦ rw (e, at_room) refl
]

module _ (wsa : ℕ → Posted) (encode : Message → List ℕ) where
  join-AreApart :
      (slot sequence : ℕ) (name : List ℕ) (g : Game)
      → AreApart g.users.users
      → AreApart (handle_join wsa encode slot sequence name g).users.users
  unfolding handle_join
  join-AreApart slot sequence name g h =
      let (i, m) = get_or_create_available_room g.rooms in
      let g₁ = record g { rooms = m } in
      let made = create_user g₁.net g₁.sessions slot (c_str name) (room_id_at i g₁) g₁.users in
      let apart =
        create_user-AreApart g₁.net g₁.sessions slot (c_str name) (room_id_at i g₁) g₁.users h in
      elim (Option-cases made.0) [
        | inl e ↦ rw (e, handle_join) apart
        | inr (user, e) ↦
            rw (e, handle_join)
              (rw (users-at_room i (join wsa encode (some user)) (record g₁ { users = made.1 }))
                apart)
      ]

  leave-AreApart :
      (slot sequence : ℕ) (g : Game)
      → AreApart g.users.users
      → AreApart (handle_leave wsa encode slot sequence g).users.users
  unfolding handle_leave
  leave-AreApart slot sequence g h = elim (Option-cases (get_user_by_client g.net slot g.users)) [
    | inl e ↦ rw (e, handle_leave) h
    | inr (user, e) ↦ elim (Option-cases (get_room user.room_id g.rooms)) [
      | inl f ↦ rw (e, f, handle_leave) h
      | inr (i, f) ↦
          rw (e, f, handle_leave)
            (rw (users-at_room i (leave wsa encode user.id) g) (remove-AreApart user.id g.users h))
    ]
  ]

  chat-AreApart :
      (slot sequence now : ℕ) (message : List ℕ) (g : Game)
      → AreApart g.users.users
      → AreApart (handle_chat wsa encode slot sequence now message g).users.users
  unfolding handle_chat
  chat-AreApart slot sequence now message g h =
      elim (Option-cases (get_user_by_client g.net slot g.users)) [
        | inl e ↦ rw (e, handle_chat) h
        | inr (user, e) ↦ elim (Option-cases (get_room user.room_id g.rooms)) [
          | inl f ↦ rw (e, f, handle_chat) h
          | inr (i, f) ↦
              rw (e, f, handle_chat)
                (subst (λ (m : UserManager). AreApart m.users)
                  (sym (
                    users-at_room i
                      (λ r net. (
                        r,
                        broadcast_chat_message wsa encode (user.id % 2 ^ 32) user.id user.name
                            message sequence now r net,
                      ))
                      g))
                  h)
        ]
      ]

  step-AreApart :
      (input : Input) (g : Game)
      → AreApart g.users.users
      → AreApart (step wsa encode input g).users.users
  unfolding step connect stop disconnect
  step-AreApart (connected slot) g h = elim (Bool-cases g.has_stopped) [
    | inl e ↦ rw (e, connect) h
    | inr e ↦ rw (e, connect) h
  ]
  step-AreApart (disconnected slot) g h = h
  step-AreApart (joins slot sequence name) g h = join-AreApart slot sequence name g h
  step-AreApart (leaves slot sequence) g h = leave-AreApart slot sequence g h
  step-AreApart (says slot sequence now message) g h = chat-AreApart slot sequence now message g h
  step-AreApart stops g h = elim (Bool-cases g.has_stopped) [
    | inl e ↦ rw (e, stop) h
    | inr e ↦ rw (e, stop) h
  ]
  step-AreApart (slots_change slots) g h = h

  run_from :
      (inputs : List Input) (g : Game)
      → AreApart g.users.users
      → AreApart (run wsa encode inputs g).users.users
  unfolding run
  run_from [] g h = h
  run_from (i ∷ is) g h = run_from is (step wsa encode i g) (step-AreApart i g h)

  -- From the managers as they are made, whatever the events and whatever becomes of the sockets of
  -- the slots between them, no two of the known users are on the same slot.
  pub run-AreApart :
      (inputs : List Input) (rooms capacity : ℕ) (net : Net)
      → AreApart (run wsa encode inputs (start rooms capacity net)).users.users
  run-AreApart inputs rooms capacity net = run_from inputs (start rooms capacity net) tt
