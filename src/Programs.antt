-- ===== src/Programs.antt =====
-- The programs that the server starts: cgi_bin/.
pub mod Show
