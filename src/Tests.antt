-- ===== src/Tests.antt =====
-- The theorems at concrete inputs, over a runtime with fractions for floating-point numbers, a linear
-- congruence for the random source, and maps that are ranged over backwards.
pub mod Exact
pub mod Sample
mod Rules
mod Rooms
mod Layouts
mod Servers
mod Histories
mod Verifier
mod Settings
mod Hubs
mod Stores
mod Starts
