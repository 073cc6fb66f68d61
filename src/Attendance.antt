-- ===== src/Attendance.antt =====
-- The attendance part of server/server_http.h: who has signed in and out, and for how long.
pub mod Node
pub mod WorkTime
pub mod Query
pub mod Report
pub mod Roster
pub mod Show
