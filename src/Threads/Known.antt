-- ===== src/Threads/Known.antt =====
-- server/server_http.h: threads whose queries name users who have records: the users sign out, and
-- nothing is added to `v`.
pub mod Elements
pub mod Places
pub mod Moves
pub mod Reached
