-- ===== src/Handler.antt =====
-- internal/handler: what the server does on a message or when a connection is lost.
pub mod Accounts
pub mod Server
pub mod Lobby
pub mod Gameplay
pub mod Auth
pub mod Router
pub mod Connections
pub mod Rounds
pub mod Events
pub mod Invariant
pub mod Guard
pub mod Soundness
pub mod History
pub mod Delivery
pub mod Liveness
pub mod Lossless
pub mod Leaving
pub mod Joining
pub mod Starting
pub mod Teams
pub mod Returning
pub mod Effects
