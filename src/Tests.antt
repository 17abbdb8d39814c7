-- ===== src/Tests.antt =====
-- Runs at concrete inputs: the theorems of the other modules, applied to a small flatbuffers, a small
-- Winsock and the slots of a small server.
pub mod Data
mod Bytes
mod Dispatch
mod Rooms
mod Service
mod Settings
mod Accepting
mod Console
mod Looping
mod Ports
mod Windows
