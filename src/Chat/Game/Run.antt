-- ===== src/Chat/Game/Run.antt =====
-- What the chat server's logic thread is given, and its steps one after another.
use highp_mmorpg.Prelude.{ℕ, false, List, [], ◌∷◌}
use highp_mmorpg.Client.{Client, Posted}
use highp_mmorpg.Chat.Message.{Message}
use highp_mmorpg.Chat.Session.{Net}
use highp_mmorpg.Chat.RoomManager.{init}
use highp_mmorpg.Chat.Game.{Game, connect, disconnect, stop, handle_join, handle_leave, handle_chat}

-- An event of a slot; the server's own threads change the slots between two steps.
pub data Input : Type 0 where
  connected disconnected : ℕ → Input
  joins : (slot sequence : ℕ) → List ℕ → Input
  leaves : (slot sequence : ℕ) → Input
  says : (slot sequence now : ℕ) → List ℕ → Input
  slots_change : (ℕ → Client) → Input
  stops : Input

-- The managers as `GameLoop` has made them.
abbrev pub start : (init_room_count max_room_capacity : ℕ) → Net → Game
start rooms capacity net = record {
  net = net;
  sessions = record { sessions = []; session_counter = 0 };
  users = record { users = []; user_id_counter = 0 };
  rooms = init rooms capacity;
  has_stopped = false;
  crashed = false;
}

module _ (wsa : ℕ → Posted) (encode : Message → List ℕ) where
  unfoldable pub step : Input → Game → Game
  step (connected slot) g = connect slot g
  step (disconnected slot) g = disconnect slot g
  step (joins slot sequence name) g = handle_join wsa encode slot sequence name g
  step (leaves slot sequence) g = handle_leave wsa encode slot sequence g
  step (says slot sequence now message) g = handle_chat wsa encode slot sequence now message g
  step stops g = stop g
  step (slots_change slots) g = record g { net = record (g.net) { slots = slots } }

  unfoldable pub run : List Input → Game → Game
  run [] g = g
  run (i ∷ is) g = run is (step i g)
