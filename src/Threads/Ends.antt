-- ===== src/Threads/Ends.antt =====
-- server/server_http.h: however the threads are interleaved, they come to an end.
pub mod Rank
pub mod Moves
pub mod Bound
pub mod Over
