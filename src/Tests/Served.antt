-- ===== src/Tests/Served.antt =====
-- A request for a program, by the main loop and by a thread.
use face_perception.Common.{
  ℕ, ◌≡◌, refl, true, some, none, Option, Bytes, List, [], ◌∷◌, ◌++◌, codes, arith, length, ◌≤◌,
}
use face_perception.Common.Int.{negsuc}
use face_perception.Outcome.{done}
use face_perception.Attendance.Roster.{Roster, new_roster}
use face_perception.Http.World.{World}
use face_perception.Http.Accept.Visit.{accept_get_query}
use face_perception.Http.Main.{Client, accept_request, serve, get_sock, start, main}
use face_perception.Http.Main.Laws.{main-history}
use face_perception.Attendance.Roster.Invariant.{IsValid}
use face_perception.Attendance.Roster.History.{run}
use face_perception.Tests.Servers.{net, argv}
use face_perception.Http.Main.Calls.{all_visits}
use face_perception.Threads.Vector.{Shared}
use face_perception.Threads.Steps.{at_start}
use face_perception.Threads.Alone.Sequence.{Settles}
use face_perception.Threads.Served.{serve-threads}
use face_perception.Tests.Requests.{calendar, system, query, headers, world, IsWire-query, visit}

abbrev visitor : World
visitor = world headers (codes "/show?" ++ query)

abbrev client : Client
client = record { input = visitor.input; now = 0; created = true }

abbrev clients : List (Option Client)
clients = some client ∷ none ∷ []

visited : (r : Roster) × (accept_request calendar system 64 0 client new_roster ≡ done r)
unfolding accept_request
visited =
    let (w, run, _, _, _) =
      accept_get_query calendar system 64 0 0 (codes "/show") (codes "n") (codes "zhou") (codes "i")
        (codes "7") (codes "HTTP/1.1") (codes "<p>") headers [] visitor (omega arith) (omega arith)
        visit refl refl (omega arith) IsWire-query (omega arith) refl in
    (w.roster, rw run)

serve-visited : serve calendar system 64 0 clients new_roster ≡ done (visited.0, some (negsuc 0))
unfolding serve
serve-visited = rw visited.1

main-visited : main calendar system 64 0 net argv clients ≡ done (visited.0, some (negsuc 0))
unfolding main start get_sock
main-visited = rw serve-visited

-- A connection that records a visit, and then a failure of `accept`.
main-history_example :
    IsValid visited.0
    × ((calls : List (Bytes × ℕ)) × (length calls ≤ 2)
        × (run calendar calls new_roster ≡ done visited.0))
main-history_example =
    main-history calendar system 64 0 net argv clients visited.0 (some (negsuc 0)) main-visited

abbrev empty_room : Shared calendar
empty_room = record { roster = new_roster; capacity = 0; block = 0; tm = 0; console = [] }

serve-threads_example :
    (visits : List (Bytes × ℕ)) × (all_visits 64 clients ≡ done visits)
    × Settles (at_start empty_room visits) visited.0
serve-threads_example = serve-threads calendar system 64 0 empty_room clients serve-visited
