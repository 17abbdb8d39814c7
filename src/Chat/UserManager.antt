-- ===== src/Chat/UserManager.antt =====
-- exec/chat/chat-server/chat-server/UserManager.cpp.
pub mod Slots
use highp_mmorpg.Prelude.{
  ℕ, suc, ◌+◌, ◌%◌, ◌^◌, Bool, true, false, List, [], ◌∷◌, Option, none, some, if◌then◌else◌,
  length, map,
}
use highp_mmorpg.Chat.Session.{Session, User, Net, is_same_client}
use highp_mmorpg.Chat.SessionManager.{
  SessionManager, get_session_by_client, assign, find_key, erase_key, find_if, second,
}

-- `_users`, in the order of iteration, and `_userIdCounter`.
pub record UserManager : Type 0 where
  pub users : List (ℕ × User)
  pub user_id_counter : ℕ

-- `UserManager::GetUserByClient`
unfoldable pub get_user_by_client : Net → ℕ → UserManager → Option User
get_user_by_client net slot m = second (find_if (λ entry. is_same_client net entry.1 slot) m.users)

-- `UserManager::CreateUser`. The room's id is cut to 32 bits where the user stores it.
unfoldable pub create_user :
    Net → SessionManager → ℕ → List ℕ → ℕ → UserManager → Option User × UserManager
create_user net sessions slot username room_id m = elim (get_session_by_client net slot sessions) [
  | none ↦ (none, m)
  | some session ↦ elim (get_user_by_client net slot m) [
    | some existing ↦ (none, m)
    | none ↦
        let user : User = record {
          session = session;
          id = m.user_id_counter;
          name = username;
          room_id = room_id % 2 ^ 32;
        } in
        (
          some user,
          record m {
            users = assign m.user_id_counter user m.users;
            user_id_counter = (m.user_id_counter + 1) % 2 ^ 64;
          },
        )
  ]
]

-- `UserManager::RemoveUserByUserId`
unfoldable pub remove_user_by_user_id : ℕ → UserManager → UserManager
remove_user_by_user_id id m = record m { users = erase_key id m.users }

-- `UserManager::RemoveUser`
unfoldable pub remove_user : User → UserManager → UserManager
remove_user u m = remove_user_by_user_id u.id m

-- `UserManager::IsUserExist`
unfoldable pub is_user_exist : ℕ → UserManager → Bool
is_user_exist id m = elim (find_key id m.users) [ none ↦ false | some _ ↦ true ]

-- `UserManager::GetUser`
unfoldable pub get_user : ℕ → UserManager → Option User
get_user id m = find_key id m.users

-- `UserManager::GetUserCount` and `GetAllUsers`
unfoldable pub get_user_count : UserManager → ℕ
get_user_count m = length m.users

unfoldable pub get_all_users : UserManager → List User
get_all_users m = map (λ entry. entry.1) m.users
