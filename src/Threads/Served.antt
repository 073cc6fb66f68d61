-- ===== src/Threads/Served.antt =====
-- server/server_http.cpp: the threads that `main` starts, by the requests of its connections.
use face_perception.Common.{ℕ, ◌≡◌, Bytes, Option, List}
use face_perception.Common.Int.{ℤ}
use face_perception.Outcome.{done}
use face_perception.Attendance.Roster.{Calendar, Roster}
use face_perception.Http.World.{Os}
use face_perception.Http.Main.{Client, serve}
use face_perception.Http.Main.Calls.{all_visits, serve-Served}
use face_perception.Threads.Vector.{Shared}
use face_perception.Threads.Steps.{at_start}
use face_perception.Threads.Alone.Sequence.{Settles, one_after_another}

-- If the threads of `main` return when they run one after another, the threads that call
-- `send_vector` for the visits that the requests ask for have an interleaving in which all of them
-- finish and leave the same roster.
pub serve-threads :
    (c : Calendar) (os : Os) (fuel ch : ℕ) (m : Shared c) (clients : List (Option Client))
    {r : Roster} {status : Option ℤ}
    → serve c os fuel ch clients m.roster ≡ done (r, status)
    → (visits : List (Bytes × ℕ)) × (all_visits fuel clients ≡ done visits)
      × Settles (at_start m visits) r
serve-threads c os fuel ch m clients h =
    let s = serve-Served c os fuel ch clients m.roster h in
    (s.visits, s.read, one_after_another m s.visits s.ran)
