-- ===== src/Tests/Pipes.antt =====
-- The descriptors of `exec_cgi` at a concrete input.
use face_perception.Common.{◌≡◌, refl, true, none, some, arith, leb, if◌then◌else◌}
use face_perception.Outcome.{done}
use face_perception.Http.Pipes.{Table, other, Tables, forked, open_input, open_output, exec_cgi_fds}
use face_perception.Http.Pipes.Laws.{AreFresh, Serves, exec_cgi_fds-Serves}

-- The console, the listening socket and a connection are open.
abbrev before : Table
before fd = if leb fd 4 then some (other fd) else none

before-AreFresh : AreFresh before 5 6 7 8
before-AreFresh = record {
  above = (omega arith, omega arith, omega arith, omega arith);
  apart = (omega arith, omega arith, omega arith, omega arith, omega arith, omega arith);
  closed = (refl, refl, refl, refl);
}

exec_cgi_fds-Serves_example :
    (s : Tables) × (exec_cgi_fds (some (5, 6)) (some (7, 8)) true before ≡ done s)
    × Serves before 6 s
exec_cgi_fds-Serves_example = exec_cgi_fds-Serves before 5 6 7 8 before-AreFresh

abbrev tables : Tables
tables = forked (open_output (some (5, 6)) (open_input none before))
