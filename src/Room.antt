-- ===== src/Room.antt =====
-- internal/room: one room, its game loop, and the manager of all rooms.
pub mod Placing
pub mod Players
pub mod Defs
pub mod Tick
pub mod Rounds
pub mod Invariant
pub mod Ending
pub mod Live
pub mod Ready
pub mod Codes
pub mod Manager
