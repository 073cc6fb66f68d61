-- ===== src/Http.antt =====
-- The request handling of server/server_http.h.
pub mod Line
pub mod Request
pub mod World
pub mod Files
pub mod Cgi
pub mod Pipes
pub mod Accept
pub mod Main
