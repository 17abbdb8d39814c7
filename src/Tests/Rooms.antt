-- ===== src/Tests/Rooms.antt =====
-- The chat server's sessions, users and rooms.
use highp_mmorpg.Prelude.{
  ℕ, ◌≡◌, refl, inl, false, not, List, [], ◌∷◌, ◌++◌, none, some, arith, ◌==◌, if◌then◌else◌,
  length-replicate,
}
use highp_mmorpg.Frame.{encode_header}
use highp_mmorpg.Client.{Posted, accepted, send_buffer_size}
use highp_mmorpg.Chat.Message.{Message, user_left_broadcast}
use highp_mmorpg.Chat.Session.{User, Net, send_on, send_to}
use highp_mmorpg.Chat.Session.Framing.{Ends, send_on-Ends}
use highp_mmorpg.Chat.Session.Delivery.{IsSound, IsDeliverable, outbox-send_to}
use highp_mmorpg.Chat.SessionManager.{
  SessionManager, create_session, get_session, remove_session, remove_by_client,
  get_session_by_client,
}
use highp_mmorpg.Chat.SessionManager.Table.{is_none, session_calls}
use highp_mmorpg.Chat.UserManager.{UserManager}
use highp_mmorpg.Chat.UserManager.Slots.{AreApart}
use highp_mmorpg.Chat.Room.{Room, leave}
use highp_mmorpg.Chat.Room.Broadcasts.{leave_tells}
use highp_mmorpg.Chat.RoomManager.{RoomManager}
use highp_mmorpg.Chat.Game.{Game}
use highp_mmorpg.Chat.Game.Run.{
  connected, disconnected, slots_change, joins, leaves, says, start, run,
}
use highp_mmorpg.Chat.Game.Housing.{IsSafe}
use highp_mmorpg.Chat.Game.Safety.{run-IsSafe}
use highp_mmorpg.Chat.Game.Apart.{run-AreApart}
use highp_mmorpg.Chat.Game.Reuse.{reuse_refused}
use highp_mmorpg.Tests.Data.{connected_client}

abbrev takes_all : ℕ → Posted
takes_all n = accepted

-- The bytes of a packet are one byte.
abbrev one_byte : Message → List ℕ
one_byte msg = 9 ∷ []

-- Every slot has a connection.
abbrev net : Net
net = record {
  slots = λ slot. record connected_client { socket = some slot };
  outbox = [];
  calls = 0;
  events = [];
  faulted = false;
}

net-IsSound : IsSound net
net-IsSound = record { buffers = λ slot. length-replicate {A = ℕ} send_buffer_size 0; whole = refl }

abbrev ann : User
ann = record { session = record { client = 1; id = 0 }; id = 10; name = 97 ∷ []; room_id = 0 }

abbrev bob : User
bob = record { session = record { client = 2; id = 1 }; id = 11; name = 98 ∷ []; room_id = 0 }

abbrev room : Room
room = record { id = 0; users = ann ∷ bob ∷ [] }

deliverable : (msg : Message) → IsDeliverable takes_all one_byte msg
deliverable msg = (omega arith, λ n. inl refl)

send_on-Ends_example : Ends (9 ∷ []) connected_client (send_on accepted (9 ∷ []) connected_client)
send_on-Ends_example =
    send_on-Ends accepted (9 ∷ []) connected_client (length-replicate {A = ℕ} send_buffer_size 0)

outbox-send_to_example :
    (send_to takes_all one_byte (ann ∷ bob ∷ []) (user_left_broadcast 12 []) net).outbox
    ≡ (1, encode_header 1 ++ 9 ∷ []) ∷ (2, encode_header 1 ++ 9 ∷ []) ∷ []
outbox-send_to_example =
    outbox-send_to takes_all one_byte (ann ∷ bob ∷ []) (user_left_broadcast 12 []) net net-IsSound
      (deliverable (user_left_broadcast 12 [])) (refl, (refl, tt))

abbrev cat : User
cat = record { session = record { client = 3; id = 2 }; id = 12; name = 99 ∷ []; room_id = 0 }

leave_tells_example :
    let (r', net') = leave takes_all one_byte 10 room net in
    (r'.users ≡ bob ∷ []) × (net'.outbox ≡ (2, encode_header 1 ++ 9 ∷ []) ∷ [])
leave_tells_example =
    leave_tells takes_all one_byte 10 ann room net refl ((λ e. absurd (ground arith), tt), (tt, tt))
      net-IsSound (deliverable (user_left_broadcast 10 (97 ∷ []))) (refl, (refl, tt))

abbrev sessions : SessionManager
sessions = record {
  sessions = (0, record { client = 1; id = 0 }) ∷ (1, record { client = 2; id = 1 }) ∷ [];
  session_counter = 2;
}

abbrev users : UserManager
users = record { users = (10, ann) ∷ []; user_id_counter = 11 }

abbrev rooms : RoomManager
rooms = record { rooms = room ∷ []; room_counter = 1; max_room_capacity = 2 }

run-IsSafe_example :
    let g =
      run takes_all one_byte
        (connected 1
          ∷ joins 1 5 (97 ∷ [])
          ∷ connected 2
          ∷ joins 2 6 (98 ∷ [])
          ∷ says 1 7 8 (104 ∷ [])
          ∷ leaves 1 9
          ∷ disconnected 2
          ∷ [])
        (start 1 1 net) in
    IsSafe g.rooms g.users.users g.crashed
run-IsSafe_example =
    run-IsSafe takes_all one_byte
      (connected 1
        ∷ joins 1 5 (97 ∷ [])
        ∷ connected 2
        ∷ joins 2 6 (98 ∷ [])
        ∷ says 1 7 8 (104 ∷ [])
        ∷ leaves 1 9
        ∷ disconnected 2
        ∷ [])
      1 1 net (omega arith)

run-AreApart_example :
    AreApart
      (run takes_all one_byte
        (connected 1 ∷ joins 1 5 (97 ∷ []) ∷ joins 1 6 (98 ∷ []) ∷ [])
        (start 1 1 net)).users.users
run-AreApart_example =
    run-AreApart takes_all one_byte (connected 1 ∷ joins 1 5 (97 ∷ []) ∷ joins 1 6 (98 ∷ []) ∷ []) 1
      1 net

-- Ann is known on slot 1.
abbrev game : Game
game = record (start 1 2 net) { users = users; sessions = sessions }

reuse_refused_example :
    let g' =
      run takes_all one_byte
        (disconnected 1 ∷ slots_change net.slots ∷ connected 1 ∷ joins 1 5 (100 ∷ []) ∷ [])
        game in
    (g'.users ≡ users) × (g'.net.outbox ≡ [])
reuse_refused_example =
    reuse_refused takes_all one_byte 1 5 (100 ∷ []) net.slots game (λ away. away.0 refl)

session_calls_example :
    let (session, created) = create_session 2 sessions in
    let (removed, rest) = remove_session 7 sessions in
    let (closed, left) = remove_by_client net 2 sessions in
    (session.client ≡ 2)
    × (get_session 3 created
        ≡ (if sessions.session_counter == 3 then some session else get_session 3 sessions))
    × (removed ≡ not (is_none (get_session 7 sessions)))
    × (get_session 3 rest ≡ (if 7 == 3 then none else get_session 3 sessions))
    × (get_session_by_client net 2 left ≡ none)
    × (closed ≡ not (is_none (get_session_by_client net 2 sessions)))
session_calls_example = session_calls net 2 7 3 sessions (omega arith)
