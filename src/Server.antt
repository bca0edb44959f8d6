-- ===== src/Server.antt =====
-- The server itself: src/main.cpp and src/router.cpp.
pub mod Roster
pub mod Stanza
pub mod Router
pub mod Files
pub mod Presence
pub mod App
mod Runs
