-- ===== src/Http/Accept.antt =====
-- server/server_http.h: `exec_post` and `Accept`, the whole handling of one connection.
pub mod Laws
pub mod Visit
use face_perception.Common.{ℕ, Bool, Bytes, Option, if◌then◌else◌}
use face_perception.Outcome.{Outcome, done, ◌>>=◌}
use face_perception.Memory.{zeros}
use face_perception.Attendance.Roster.{Calendar, send_vector}
use face_perception.Http.Line.{get_line}
use face_perception.Http.Request.{Request, new_request, get_path_method_query}
use face_perception.Http.World.{size, Os, World, closed, emit}
use face_perception.Http.Files.{exec_get}
use face_perception.Http.Cgi.{exec_cgi}

module _ (c : Calendar) (os : Os) (fuel ch : ℕ) (now : ℕ) where
  -- The roster first, then the program.
  unfoldable pub exec_post : Bytes → Bytes → Bytes → World → Outcome World
  exec_post path method query w = do
    visit ← send_vector c query now w.roster
    exec_cgi os fuel ch path method query (record w { roster = visit.0 })

  -- `exec_post` or `exec_get`, by the flag `cgi`.
  unfoldable pub handle : Request → World → Outcome World
  handle r w = if r.cgi then exec_post r.path r.method r.query w else exec_get os fuel r.path w

  -- The request of a connection, at the time `now`; each loop has `fuel` rounds, and `ch` is what
  -- the uninitialised `ch` of `exec_cgi` holds. `get_line` never returns -1.
  unfoldable pub accept : World → Outcome World
  accept w = do
    line ← get_line fuel (zeros size) size w.input
    r ← get_path_method_query line.1 new_request
    w' ← handle r (record w { input = line.2 })
    done (emit closed w')
