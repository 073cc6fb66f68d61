-- ===== src/Tests/Servers.antt =====
-- Runs of the main loop of server_http, and its theorems at concrete inputs.
use face_perception.Common.{
  ℕ, ◌≡◌, ◌≤◌, refl, inr, true, false, some, none, Option, Bytes, List, [], ◌∷◌, ◌++◌, codes, arith,
  length,
}
use face_perception.Common.Int.{negsuc}
use face_perception.Outcome.{done}
use face_perception.Net.{Sockets}
use face_perception.Attendance.Roster.{Calendar, new_roster}
use face_perception.Attendance.Roster.Invariant.{IsValid}
use face_perception.Attendance.Roster.History.{run}
use face_perception.Http.World.{ends, breaks, Os}
use face_perception.Http.Files.Laws.{answer, resource}
use face_perception.Http.Accept.Laws.{arriving_request, accept_get}
use face_perception.Http.Main.{Client, get_sock, accept_request, serve, start, main}
use face_perception.Http.Main.Laws.{main-history, main-CannotStart}
use face_perception.Tests.Requests.{headers, wire}

abbrev calendar : Calendar
calendar = record { Tm = ℕ; localtime = λ t. t; mktime = λ t. t; strftime = λ t. codes "now" }

-- No path exists, and programs copy their input behind a tag.
abbrev pub system : Os
system = record {
  stat = λ p. none;
  opens = λ p. false;
  forks = true;
  program = λ path env stdin. ends (codes "<p>" ++ stdin);
  dies = λ stdin. breaks;
}

abbrev pub net : Sockets
net = record { socket = some 3; bind = λ port. true; listen = true; epoll_create = some 4 }

abbrev pub argv : List Bytes
argv = codes "server" ∷ codes "8080" ∷ []

-- A request for a path that does not exist, and then a failure of `accept`.
abbrev client : Client
client = record {
  input = arriving_request (codes "GET") (codes "/a/") (codes "HTTP/1.1") headers [];
  now = 5;
  created = true;
}

abbrev clients : List (Option Client)
clients = some client ∷ none ∷ []

served : accept_request calendar system 64 0 client new_roster ≡ done new_roster
unfolding accept_request answer resource
served = rw (
    accept_get calendar system 64 0 5 (codes "/a/") (codes "HTTP/1.1") headers []
      (record { input = client.input; trace = []; roster = new_roster }) (omega arith) wire
      (omega arith) refl)

main-run : main calendar system 64 0 net argv clients ≡ done (new_roster, some (negsuc 0))
unfolding main start serve get_sock
main-run = rw served

main-history_run :
    IsValid new_roster
    × ((calls : List (Bytes × ℕ)) × (length calls ≤ 2)
        × (run calendar calls new_roster ≡ done new_roster))
main-history_run =
    main-history calendar system 64 0 net argv clients new_roster (some (negsuc 0)) main-run

not_listening :
    main calendar system 64 0 (record net { listen = false }) argv clients
    ≡ done (new_roster, some (negsuc 0))
not_listening =
    main-CannotStart calendar system 64 0 (record net { listen = false }) argv clients
      (inr (inr refl))
