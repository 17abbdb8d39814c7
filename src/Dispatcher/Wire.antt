-- ===== src/Dispatcher/Wire.antt =====
-- What the server uses of the flatbuffers code that the build generates from protocol/flatbuf.
use highp_mmorpg.Prelude.{ℕ, Bool, List, Option}

-- `verify` is `VerifyPacketBuffer`, `get_packet` is `GetPacket` (`none` for a null pointer), and
-- `payload_as` gives the payload of a type, or null.
pub record Flatbuffers : Type 1 where
  pub Packet : Type 0
  pub Payload : Type 0
  pub verify : List ℕ → Bool
  pub get_packet : List ℕ → Option Packet
  pub payload_type : Packet → ℕ
  pub payload_as : Packet → ℕ → Option Payload
