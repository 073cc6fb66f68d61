-- ===== src/Client.antt =====
-- The clients: client/.
pub mod Input
pub mod Session
pub mod Plain
