-- ===== src/Tests/Requests.antt =====
-- Runs of the request handling, and its theorems at concrete inputs.
use face_perception.Common.{
  ℕ, ◌≡◌, refl, Bytes, List, [], ◌∷◌, ◌++◌, codes, true, false, some, arith, replicate,
}
use face_perception.Outcome.{done, ◌>>=◌}
use face_perception.Memory.Laws.{Holds}
use face_perception.Attendance.Query.Laws.{query_text}
use face_perception.Attendance.Roster.{Calendar, new_roster}
use face_perception.Attendance.Roster.Invariant.{new_roster-IsValid}
use face_perception.Attendance.Roster.Lookup.{lookup}
use face_perception.Http.Line.{arriving}
use face_perception.Http.Request.Parse.{IsRequest}
use face_perception.Http.World.{ends, breaks, Os, World, closed, emit}
use face_perception.Http.Files.{exec_get}
use face_perception.Http.Files.Laws.{IsHeader, header, answer, emit_all, exec_get-answer}
use face_perception.Http.Cgi.{exec_cgi}
use face_perception.Http.Cgi.Child.{get_printed}
use face_perception.Http.Cgi.Laws.{program_events, exec_cgi_get}
use face_perception.Http.Accept.{accept}
use face_perception.Http.Accept.Laws.{arriving_request, IsWire, accept_get}
use face_perception.Http.Accept.Visit.{IsVisit}

abbrev pub calendar : Calendar
calendar = record { Tm = ℕ; localtime = λ t. t; mktime = λ t. t; strftime = λ t. codes "now" }

-- Every path is a file of 40 bytes, and programs copy their input behind a tag.
abbrev pub system : Os
system = record {
  stat = λ p. some (record { is_dir = false; st_size = 40 });
  opens = λ p. true;
  forks = true;
  program = λ path env stdin. ends (codes "<p>" ++ stdin);
  dies = λ stdin. breaks;
}

abbrev pub query : Bytes
query = query_text (codes "n") (codes "zhou") (codes "i") (codes "7")

abbrev pub headers : List Bytes
headers = codes "Host: a" ∷ []

headers-IsHeader : IsHeader 64 headers
headers-IsHeader = (((cc), omega arith, omega arith, omega arith), tt)

abbrev pub world : List Bytes → Bytes → World
world hs url = record {
  input = arriving_request (codes "GET") url (codes "HTTP/1.1") hs [];
  trace = [];
  roster = new_roster;
}

pub get-IsRequest_query : IsRequest (codes "GET") (codes "/show?" ++ query) (codes "HTTP/1.1\n")
get-IsRequest_query = record {
  method_ne = cc;
  url_ne = cc;
  treaty_ne = cc;
  method_word = omega arith;
  url_word = omega arith;
  treaty_word = omega arith;
  method_fits = omega arith;
  url_fits = omega arith;
  treaty_fits = omega arith;
}

pub IsWire-query : IsWire 64 (codes "GET") (codes "/show?" ++ query) (codes "HTTP/1.1") headers
IsWire-query = record {
  words = get-IsRequest_query;
  plain = omega arith;
  line_fits = omega arith;
  line_fuel = omega arith;
  lines = headers-IsHeader;
  header_fuel = omega arith;
}

pub visit : IsVisit calendar 0 (codes "n") (codes "zhou") (codes "i") (codes "7") new_roster
unfolding lookup
visit = record {
  key_ok = omega arith;
  name_ok = omega arith;
  key'_ok = omega arith;
  id_ok = omega arith;
  roster_ok = new_roster-IsValid;
  room = λ n e. cc;
}

pub get-IsRequest : IsRequest (codes "GET") (codes "/a/") (codes "HTTP/1.1\n")
get-IsRequest = record {
  method_ne = cc;
  url_ne = cc;
  treaty_ne = cc;
  method_word = omega arith;
  url_word = omega arith;
  treaty_word = omega arith;
  method_fits = omega arith;
  url_fits = omega arith;
  treaty_fits = omega arith;
}

pub wire : IsWire 64 (codes "GET") (codes "/a/") (codes "HTTP/1.1") headers
wire = record {
  words = get-IsRequest;
  plain = omega arith;
  line_fits = omega arith;
  line_fuel = omega arith;
  lines = headers-IsHeader;
  header_fuel = omega arith;
}

accept_get_example : accept calendar system 64 0 0 (world headers (codes "/a/")) ≡ (
    answer system
      (codes "htdocs/a/index.html")
      []
      (record (world headers (codes "/a/")) { input = header headers [] })
    >>= λ w'. done (emit closed w'))
accept_get_example =
    accept_get calendar system 64 0 0 (codes "/a/") (codes "HTTP/1.1") headers []
      (world headers (codes "/a/")) (omega arith) wire (omega arith) refl

exec_get-answer_run :
    exec_get system 64
      (codes "htdocs/a" ++ 0 ∷ replicate 11 0)
      (record (world headers (codes "/a")) { input = header headers [] })
    ≡ answer system
        (codes "htdocs/a")
        []
        (record (world headers (codes "/a")) { input = header headers [] })
exec_get-answer_run =
    exec_get-answer system 64 headers []
      (record (world headers (codes "/a")) { input = header headers [] }) refl headers-IsHeader
      (omega arith) (codes "htdocs/a") (replicate 11 0) (omega arith) (omega arith)

method-Holds : Holds (codes "GET" ++ 0 ∷ []) (codes "GET")
method-Holds = record { is_text = omega arith; rest = []; splits = refl }

path-Holds : Holds (codes "htdocs/show" ++ 0 ∷ []) (codes "htdocs/show")
path-Holds = record { is_text = omega arith; rest = []; splits = refl }

query-Holds : Holds (query ++ 0 ∷ []) query
query-Holds = record { is_text = omega arith; rest = []; splits = refl }

exec_cgi_get_run :
    exec_cgi system 64 0
      (codes "htdocs/show" ++ 0 ∷ [])
      (codes "GET" ++ 0 ∷ [])
      (query ++ 0 ∷ [])
      (record (world headers (codes "/show")) { input = header headers [] })
    ≡ done (
        emit_all
          (program_events [] (get_printed query ++ codes "<p>"))
          (record (world headers (codes "/show")) { input = [] }))
exec_cgi_get_run =
    exec_cgi_get system 64 0 headers []
      (record (world headers (codes "/show")) { input = header headers [] })
      (codes "htdocs/show" ++ 0 ∷ []) (codes "GET" ++ 0 ∷ []) (query ++ 0 ∷ [])
      (codes "htdocs/show") query (codes "<p>") refl refl method-Holds path-Holds query-Holds
      (omega arith) refl headers-IsHeader (omega arith)

abbrev post_headers : List Bytes
post_headers = codes "Host: a" ∷ codes "Content-Length: 3" ∷ []

abbrev post_world : World
post_world = record (world headers (codes "/show")) {
  input = header post_headers (arriving (codes "a=b") ++ arriving (codes "more"));
}

-- Two bytes come of three.
abbrev early_world : World
early_world = record post_world { input = header post_headers (arriving (codes "a=")) }
