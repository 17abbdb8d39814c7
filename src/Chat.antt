-- ===== src/Chat.antt =====
-- exec/chat/chat-server/chat-server: sessions, users, rooms, the packet handlers and the game loop.
pub mod Message
pub mod Session
pub mod SessionManager
pub mod UserManager
pub mod Room
pub mod RoomManager
pub mod Game
pub mod Loop
