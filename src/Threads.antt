-- ===== src/Threads.antt =====
-- server/server_http.h: `send_vector` as the threads of `accept_request` run it at the same time.
-- They share the members `size` and `v`, the array that holds the elements of `v`, the calendar's
-- static `struct tm`, the console and the mutex. A round of a loop, a statement on `*prev`, the body
-- of a critical section and what a thread does between these with its own variables are one step
-- each.
pub mod Places
pub mod Vector
pub mod Actions
pub mod Steps
pub mod Known
pub mod Mutex
pub mod Alone
pub mod Races
pub mod Users
pub mod Served
pub mod Ends
