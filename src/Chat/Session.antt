-- ===== src/Chat/Session.antt =====
-- exec/chat/chat-server/chat-server/Session.cpp and User.cpp, and the slots that they send through.
pub mod Framing
pub mod Delivery
use highp_mmorpg.Prelude.{
  ℕ, suc, ◌+◌, ◌-◌, ◌%◌, ◌^◌, ◌<◌, Bool, true, false, not, List, [], ◌∷◌, ◌++◌, Option, none, some,
  ltb, ◌==◌, ◌&&◌, if◌then◌else◌, length, replicate, map,
}
use highp_mmorpg.Frame.{header_size, encode_header, copy_at}
use highp_mmorpg.Client.{Client, ClientEvent, Posted, is_connected, send_buffer_size, post_send}
use highp_mmorpg.Chat.Message.{Message}

-- `Session`: the client is a pointer, so it is known by its slot, and what its socket is, is read
-- from the slot at each call.
pub record Session : Type 0 where
  pub client : ℕ
  pub id : ℕ

-- `User`
pub record User : Type 0 where
  pub session : Session
  pub id : ℕ
  pub name : List ℕ
  pub room_id : ℕ

-- The pooled clients, the frames that Winsock took from each, oldest first, the number of `WSASend`
-- calls so far, the clients' callbacks, and whether a copy has run past a send buffer.
pub record Net : Type 0 where
  pub slots : ℕ → Client
  pub outbox : List (ℕ × List ℕ)
  pub calls : ℕ
  pub events : List (ℕ × ClientEvent)
  pub faulted : Bool

abbrev pub update : (ℕ → Client) → ℕ → Client → ℕ → Client
update slots slot c other = if other == slot then c else slots other

-- `==` on socket handles, INVALID_SOCKET included.
abbrev pub same_socket : Option ℕ → Option ℕ → Bool
same_socket none none = true
same_socket none (some b) = false
same_socket (some a) none = false
same_socket (some a) (some b) = a == b

-- `Session::IsSameSession`
abbrev pub is_same_session : Net → Session → ℕ → Bool
is_same_session net s slot = same_socket (net.slots s.client).socket (net.slots slot).socket

-- `User::IsSameClient`
abbrev pub is_same_client : Net → User → ℕ → Bool
is_same_client net u slot = is_same_session net u.session slot

-- How `Session::Send` ends.
pub data Sending : Type 0 where
  not_connected payload_too_large exceeds_send_buffer send_failed : Sending
  sent : List ℕ → Sending

-- The frame that `Session::Send` builds.
unfoldable pub session_frame : List ℕ → List ℕ
session_frame buf =
    copy_at (copy_at (replicate (header_size + length buf) 0) 0 (encode_header (length buf)))
      header_size buf

-- `Session::Send` on its client; `none` is a copy past the end of the client's send buffer.
unfoldable pub send_on : Posted → List ℕ → Client → Option (Sending × Client × List ClientEvent)
send_on answer buf c =
    if not (is_connected c)
    then some (not_connected, c, [])
    else if ltb (2 ^ 32 - 1) (length buf)
    then some (payload_too_large, c, [])
    else if ltb send_buffer_size (header_size + length buf)
    then some (exceeds_send_buffer, c, [])
    else elim (post_send answer (session_frame buf) c) [
      | none ↦ none
      | some (taken, c', events) ↦
          some (if taken then sent (session_frame buf) else send_failed, c', events)
    ]

-- The frames that have left, and the calls that were made, by how a send ends.
abbrev pub sent_frames : ℕ → Sending → List (ℕ × List ℕ)
sent_frames slot (sent frame) = (slot, frame) ∷ []
sent_frames slot not_connected = []
sent_frames slot payload_too_large = []
sent_frames slot exceeds_send_buffer = []
sent_frames slot send_failed = []

abbrev pub sent_calls : Sending → ℕ
sent_calls (sent frame) = 1
sent_calls send_failed = 1
sent_calls not_connected = 0
sent_calls payload_too_large = 0
sent_calls exceeds_send_buffer = 0

unfoldable pub after_send : ℕ → Net → Option (Sending × Client × List ClientEvent) → Net
after_send slot net none = record net { faulted = true }
after_send slot net (some (outcome, c', events)) = record net {
  slots = update net.slots slot c';
  outbox = net.outbox ++ sent_frames slot outcome;
  calls = net.calls + sent_calls outcome;
  events = net.events ++ map (λ e. (slot, e)) events;
}

-- `wsa` gives the answer of each `WSASend` by its number, and `encode` the bytes of a packet.
module _ (wsa : ℕ → Posted) (encode : Message → List ℕ) where
  -- `Session::Send`
  unfoldable pub send : Session → Message → Net → Net
  send s msg net =
      after_send s.client net (send_on (wsa net.calls) (encode msg) (net.slots s.client))

  -- `User::Send`
  abbrev pub user_send : User → Message → Net → Net
  user_send u msg net = send u.session msg net

  -- `for (const auto& u : users) u->Send(pkt)`
  unfoldable pub send_to : List User → Message → Net → Net
  send_to [] msg net = net
  send_to (u ∷ us) msg net = send_to us msg (user_send u msg net)
