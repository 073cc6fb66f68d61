-- ===== src/Epoll.antt =====
-- The server on epoll: server/server.h and server/server.cpp.
pub mod Line
pub mod Request
pub mod Connection
pub mod Events
pub mod Drain
pub mod Main
