-- ===== src/Chat/Room.antt =====
-- exec/chat/chat-server/chat-server/room/Room.cpp. Each method holds the room's lock, so it is one step.
pub mod Broadcasts
use highp_mmorpg.Prelude.{
  ℕ, ◌%◌, ◌^◌, Bool, true, false, List, [], ◌∷◌, ◌++◌, Option, none, some, ◌==◌, if◌then◌else◌,
  length,
}
use highp_mmorpg.Client.{Posted}
use highp_mmorpg.Chat.Message.{
  Message, user_joined_broadcast, user_left_broadcast, chat_message_broadcast,
}
use highp_mmorpg.Chat.Session.{User, Net, is_same_client, send_to}
use highp_mmorpg.Chat.SessionManager.{erase_if, find_if}

-- `_roomId` and `_users`
pub record Room : Type 0 where
  pub id : ℕ
  pub users : List User

-- `_users.erase(found)`: the first user of that id.
abbrev pub erase_user : ℕ → List User → List User
erase_user user_id [] = []
erase_user user_id (u ∷ us) = if u.id == user_id then us else u ∷ erase_user user_id us

-- Those that a loop with `if (u->GetId() == userId) continue;` does not pass over.
abbrev pub others : ℕ → List User → List User
others user_id us = erase_if (λ u. u.id == user_id) us

-- `Room::GetUserCount`
unfoldable pub user_count : Room → ℕ
user_count r = length r.users

-- `Room::Kick`
unfoldable pub kick : ℕ → Room → Room
kick user_id r = record r { users = erase_if (λ u. u.id == user_id) r.users }

-- `Room::KickByDisconnected`
unfoldable pub kick_by_disconnected : Net → ℕ → Room → Room
kick_by_disconnected net slot r = record r {
  users = erase_if (λ u. is_same_client net u slot) r.users;
}

module _ (wsa : ℕ → Posted) (encode : Message → List ℕ) where
  -- `Room::Join`
  unfoldable pub join : Option User → Room → Net → Room × Net
  join none r net = (r, net)
  join (some user) r net = (
    record r { users = r.users ++ user ∷ [] },
    send_to wsa encode r.users (user_joined_broadcast (r.id % 2 ^ 32) user.id user.name) net,
  )

  -- `Room::Leave`
  unfoldable pub leave : ℕ → Room → Net → Room × Net
  leave user_id r net = elim r.users [
    | [] ↦ (r, net)
    | _ ∷ _ ↦ elim (find_if (λ u. u.id == user_id) r.users) [
      | none ↦ (r, net)
      | some found ↦
          let rest = erase_user user_id r.users in
          (
            record r { users = rest },
            send_to wsa encode (others user_id rest) (user_left_broadcast user_id found.name) net,
          )
    ]
  ]

  -- `Room::BroadcastChatMessage`; `now` is what `protocol::now()` reads.
  unfoldable pub broadcast_chat_message :
      (sender_id user_id : ℕ) (username chat_message : List ℕ) (sequence now : ℕ) → Room → Net → Net
  broadcast_chat_message sender_id user_id username chat_message sequence now r net =
      send_to wsa encode (others user_id r.users)
        (chat_message_broadcast sender_id username chat_message now sequence) net
