-- ===== src/Game.antt =====
-- internal/game: the rules of the game.
pub mod Constants
pub mod State
pub mod Player
pub mod Collision
pub mod Logic
pub mod Spawn
pub mod MapObjects
pub mod Item
pub mod Booster
pub mod StumbleStone
