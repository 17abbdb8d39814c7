-- ===== src/Chat/Message.antt =====
-- protocol/PacketFactory.h: the packets that the server sends, by the function that builds each. Their
-- bytes are flatbuffers' and are a parameter where they are sent.
use highp_mmorpg.Prelude.{ℕ, List}

pub data Message : Type 0 where
  joined_room_response : ℕ → Message
  left_room_response : ℕ → Message
  user_joined_broadcast : (room_id user_id : ℕ) → List ℕ → Message
  user_left_broadcast : (user_id : ℕ) → List ℕ → Message
  chat_message_broadcast : (sender_id : ℕ) (username message : List ℕ) (now sequence : ℕ) → Message
