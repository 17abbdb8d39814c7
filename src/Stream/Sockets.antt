-- ===== src/Stream/Sockets.antt =====
-- What the client uses of Winsock's blocking sockets.
use highp_mmorpg.Prelude.{ℕ, ◌≤◌, ◌<◌, ◌≡◌, ◌≢◌, List, [], ◌∷◌, ◌++◌, length, take}

-- What `recv` answers: bytes (none if the peer has closed), or an error code.
pub data Recv : Type 0 where
  received : List ℕ → Recv
  failed : ℕ → Recv

-- What `send` answers: how many bytes were taken, or an error.
pub data Sent : Type 0 where
  sent : ℕ → Sent
  failed : Sent

-- `recv s room` and `send s bytes` on a connected socket.
pub record Winsock : Type 1 where
  pub State : Type 0
  pub recv : State → ℕ → Recv × State
  pub send : State → List ℕ → Sent × State

-- The bytes that the peer is given. A `send` adds those that it takes, and they are no more than it
-- was handed; one that fails adds none.
pub record Delivers (ws : Winsock) : Type 0 where
  pub delivered : Winsock.State ws → List ℕ
  pub send_adds :
      (s : Winsock.State ws) (bytes : List ℕ) (n : ℕ)
      → (Winsock.send ws s bytes).0 ≡ sent n
      → (n ≤ length bytes) × (delivered (Winsock.send ws s bytes).1 ≡ delivered s ++ take n bytes)
  pub failed_adds :
      (s : Winsock.State ws) (bytes : List ℕ)
      → (Winsock.send ws s bytes).0 ≡ Sent.failed
      → delivered (Winsock.send ws s bytes).1 ≡ delivered s

-- The bytes that the peer has sent and that are not yet read. While there are any, and room for one,
-- `recv` brings some of them from the front, no more than there is room for.
pub record Arrives (ws : Winsock) : Type 0 where
  pub pending : Winsock.State ws → List ℕ
  pub recv_brings :
      (s : Winsock.State ws) (room : ℕ)
      → 0 < room
      → pending s ≢ []
      → (b : ℕ) × (bs : List ℕ) × ((Winsock.recv ws s room).0 ≡ received (b ∷ bs))
        × (length (b ∷ bs) ≤ room)
        × (pending s ≡ (b ∷ bs) ++ pending (Winsock.recv ws s room).1)
