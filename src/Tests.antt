-- ===== src/Tests.antt =====
-- Runs of the model, and each theorem at a concrete input.
mod Attendance
mod Requests
mod Lines
mod Programs
mod Servers
mod Pipes
mod Threads
mod Races
mod Served
mod Epoll
mod Database
mod Client
