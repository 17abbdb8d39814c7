-- ===== src/Chat/Game.antt =====
-- The packet handlers of exec/chat/chat-server/chat-server/handlers and the connection callbacks of
-- GameLoop.cpp, on the managers together.
pub mod Housing
pub mod Run
pub mod Safety
pub mod Apart
pub mod Reuse
use highp_mmorpg.Prelude.{
  ℕ, zero, suc, ◌+◌, ◌%◌, ◌^◌, Bool, true, false, List, [], ◌∷◌, ◌++◌, Option, none, some, ltb,
  ◌==◌, if◌then◌else◌, length, map, get_elem?, set,
}
use highp_mmorpg.Client.{Client, Posted}
use highp_mmorpg.Chat.Message.{Message, joined_room_response, left_room_response}
use highp_mmorpg.Chat.Session.{Session, User, Net, user_send}
use highp_mmorpg.Chat.SessionManager.{SessionManager, create_session, remove_by_client}
use highp_mmorpg.Chat.UserManager.{
  UserManager, create_user, get_user_by_client, remove_user_by_user_id,
}
use highp_mmorpg.Chat.Room.{Room, join, leave, broadcast_chat_message}
use highp_mmorpg.Chat.RoomManager.{
  RoomManager, get_or_create_available_room, get_room, kick_disconnected,
}

-- What the handlers and the game loop share. `crashed` is set where a null pointer is used.
pub record Game : Type 0 where
  pub net : Net
  pub sessions : SessionManager
  pub users : UserManager
  pub rooms : RoomManager
  pub has_stopped : Bool
  pub crashed : Bool

-- `username()->c_str()` handed on as a `string_view`: the text up to its first NUL.
abbrev pub c_str : List ℕ → List ℕ
c_str [] = []
c_str (b ∷ bs) = if b == 0 then [] else b ∷ c_str bs

-- A call on the room at a place of the list.
abbrev pub at_room : ℕ → (Room → Net → Room × Net) → Game → Game
at_room i call g = elim (get_elem? g.rooms.rooms i) [
  | none ↦ record g { crashed = true }
  | some r ↦
      let (r', net') = call r g.net in
      record g { rooms = record (g.rooms) { rooms = set g.rooms.rooms i r' }; net = net' }
]

-- The id of the room at a place of the list.
abbrev pub room_id_at : ℕ → Game → ℕ
room_id_at i g = elim (get_elem? g.rooms.rooms i) [ none ↦ 0 | some r ↦ r.id ]

-- `GameLoop::Connect`
unfoldable pub connect : ℕ → Game → Game
connect slot g =
    if g.has_stopped then g else record g { sessions = (create_session slot g.sessions).1 }

-- `GameLoop::Stop`, less its thread.
unfoldable pub stop : Game → Game
stop g = if g.has_stopped then g else record g { has_stopped = true }

-- `GameLoop::Disconnect`
unfoldable pub disconnect : ℕ → Game → Game
disconnect slot g = record g {
  rooms = kick_disconnected g.net slot g.rooms;
  sessions = (remove_by_client g.net slot g.sessions).1;
}

module _ (wsa : ℕ → Posted) (encode : Message → List ℕ) where
  -- `JoinRoomHandler::Handle`, with the number of the request's packet.
  unfoldable pub handle_join : (slot : ℕ) (sequence : ℕ) (username : List ℕ) → Game → Game
  handle_join slot sequence username g =
      let (i, rooms') = get_or_create_available_room g.rooms in
      let g₁ = record g { rooms = rooms' } in
      let (made, users') =
        create_user g₁.net g₁.sessions slot (c_str username) (room_id_at i g₁) g₁.users in
      let g₂ = record g₁ { users = users' } in
      elim made [
        | none ↦ g₂
        | some user ↦
            let g₃ = at_room i (join wsa encode (some user)) g₂ in
            record g₃ { net = user_send wsa encode user (joined_room_response sequence) g₃.net }
      ]

  -- `LeaveRoomHandler::Handle`
  unfoldable pub handle_leave : (slot : ℕ) (sequence : ℕ) → Game → Game
  handle_leave slot sequence g = elim (get_user_by_client g.net slot g.users) [
    | none ↦ g
    | some user ↦ elim (get_room user.room_id g.rooms) [
      | none ↦ record g { crashed = true }
      | some i ↦
          let g₁ = at_room i (leave wsa encode user.id) g in
          record g₁ {
            net = user_send wsa encode user (left_room_response sequence) g₁.net;
            users = remove_user_by_user_id user.id g₁.users;
          }
    ]
  ]

  -- `ChatMessageHandler::Handle`; `now` is what the broadcast's clock reads.
  unfoldable pub handle_chat : (slot : ℕ) (sequence now : ℕ) (message : List ℕ) → Game → Game
  handle_chat slot sequence now message g = elim (get_user_by_client g.net slot g.users) [
    | none ↦ g
    | some user ↦ elim (get_room user.room_id g.rooms) [
      | none ↦ g
      | some i ↦
          at_room i
            (λ r net. (
              r,
              broadcast_chat_message wsa encode (user.id % 2 ^ 32) user.id user.name message
                  sequence now r net,
            ))
            g
    ]
  ]
