-- ===== src/Threads/Users.antt =====
-- server/server_http.h: whom the records are of, in every interleaving.
pub mod Parts
pub mod Records
pub mod Moves
pub mod Reached
