-- ===== src/Tests/Epoll.antt =====
-- Runs of the server on epoll, and its theorems at concrete inputs.
use face_perception.Common.{
  ◌≡◌, ◌⊎◌, refl, inr, true, false, some, none, Bytes, List, [], ◌∷◌, ◌++◌, codes, arith, equal,
  replicate, ℕ, ◌==◌, if◌then◌else◌,
}
use face_perception.Common.Int.{pos}
use face_perception.Outcome.{
  done, ◌>>=◌, fault, out_of_bounds, exited, null_pointer, assertion_failed,
}
use face_perception.Memory.{to_lower}
use face_perception.Http.Line.{byte, arriving}
use face_perception.Http.Line.Laws.{stored}
use face_perception.Http.Request.Parse.{request_line}
use face_perception.Http.World.{Os}
use face_perception.Epoll.Line.{get_line}
use face_perception.Epoll.Line.Laws.{get_line_lem}
use face_perception.Epoll.Connection.{Connection, emit}
use face_perception.Epoll.Connection as EpollConnection
use face_perception.Epoll.Connection.Laws.{
  IsLine, line_input, accept_request_query, accept_request_other, accept_request_file,
}
use face_perception.Http.World as HttpWorld
use face_perception.Http.World.{Os}
use face_perception.Http.Files.Laws.{header}
use face_perception.Epoll.Connection.Files.{file_answer}
use face_perception.Epoll.Events.{
  Ready, Arrival, chunk, nothing_yet, leaves, act, added, flagged, thread, printed, System, State,
  with_nonblock, epoll_et, epoll_lt,
}
use face_perception.Epoll.Events.Laws.{epoll_et-last, epoll_lt-stale, epoll_lt-overflow}
use face_perception.Epoll.Drain.{epoll_et_drain}
use face_perception.Epoll.Drain.Laws.{all_read, epoll_et_drain-whole}
use face_perception.Epoll.Main.{waits}
use face_perception.Epoll.Main as EpollMain
use face_perception.Epoll.Main.Laws.{asked, main_fails, main-last}
use face_perception.Tests.Servers.{system, net}

line_read :
    get_line 9 (replicate 16 0) 16 (arriving (codes "GET /") ++ byte b'\r' ∷ byte b'\n' ∷ [])
    ≡ done (6, codes "GET /\n" ++ replicate 10 0, [])
unfolding stored
line_read =
    get_line_lem 9 16 (replicate 16 0) (codes "GET /") b'\r' b'\n' [] refl (omega arith)
      (inr (inr refl)) (omega arith) (omega arith) (omega arith)

abbrev query_line : Bytes
query_line = request_line (codes "GET") (codes "/show?n=zhou") (codes "HTTP/1.1")

abbrev connection : Bytes → Connection
connection l = record { input = line_input l []; trace = [] }

query-IsLine : IsLine 64 (codes "GET") (codes "/show?n=zhou") (codes "HTTP/1.1")
query-IsLine = record {
  words = record {
    method_ne = cc;
    url_ne = cc;
    method_word = omega arith;
    url_word = omega arith;
    method_fits = omega arith;
    url_fits = omega arith;
  };
  plain = omega arith;
  line_fits = omega arith;
  line_fuel = omega arith;
}

accept_request_query_run :
    EpollConnection.accept_request system 64 (connection query_line)
    ≡ done (emit HttpWorld.closed (record (connection query_line) { input = [] }))
accept_request_query_run =
    accept_request_query system 64 (codes "/show") (codes "n=zhou") (codes "HTTP/1.1") []
      (connection query_line) (omega arith) (omega arith) query-IsLine (omega arith) refl

file-IsLine : IsLine 64 (codes "GET") (codes "/a/") (codes "HTTP/1.1")
file-IsLine = record {
  words = record {
    method_ne = cc;
    url_ne = cc;
    method_word = omega arith;
    url_word = omega arith;
    method_fits = omega arith;
    url_fits = omega arith;
  };
  plain = omega arith;
  line_fits = omega arith;
  line_fuel = omega arith;
}

-- A system in which every path is a file of 40 bytes.
abbrev files : Os
files = record system {
  stat = λ p. some (record { is_dir = false; st_size = 40 });
  opens = λ p. true;
}

abbrev file_request : Connection
file_request = record {
  input =
      line_input (request_line (codes "GET") (codes "/a/") (codes "HTTP/1.1"))
        (header (codes "Host: a" ∷ []) []);
  trace = [];
}

accept_request_file_example : EpollConnection.accept_request files 64 file_request ≡ (
    file_answer files
      (codes "htdocs/a/index.html")
      []
      (record file_request { input = header (codes "Host: a" ∷ []) [] })
    >>= λ k'. done (emit HttpWorld.closed k'))
accept_request_file_example =
    accept_request_file files 64 (codes "/a/") (codes "HTTP/1.1") (codes "Host: a" ∷ []) []
      file_request (omega arith) file-IsLine ((cc, omega arith, omega arith, omega arith), tt)
      (omega arith) (omega arith) refl

abbrev other_line : Bytes
other_line = request_line (codes "PUT") (codes "/a") (codes "HTTP/1.1")

other-IsLine : IsLine 64 (codes "PUT") (codes "/a") (codes "HTTP/1.1")
other-IsLine = record {
  words = record {
    method_ne = cc;
    url_ne = cc;
    method_word = omega arith;
    url_word = omega arith;
    method_fits = omega arith;
    url_fits = omega arith;
  };
  plain = omega arith;
  line_fits = omega arith;
  line_fuel = omega arith;
}

accept_request_other_run :
    EpollConnection.accept_request system 64 (connection other_line)
    ≡ done (emit HttpWorld.closed (record (connection other_line) { input = [] }))
unfolding equal to_lower
accept_request_other_run =
    accept_request_other system 64 (codes "PUT") (codes "/a") (codes "HTTP/1.1") []
      (connection other_line) other-IsLine refl refl refl refl

abbrev kernel : System
kernel = record { flags = λ fd. 2; creates = λ t. true }

-- What has arrived: five bytes on descriptor 7, and nothing on the others.
abbrev arrived : ℕ → List Arrival
arrived fd = if fd == 7 then chunk (codes "hello") ∷ nothing_yet ∷ [] else []

-- Two connections wait, and something has arrived on one of them.
abbrev state : State
state = record { connfd = pos 0; waiting = 7 ∷ 8 ∷ []; received = arrived; trace = [] }

abbrev events : List Ready
events = record { fd = 7; events = 1 } ∷ []

-- Descriptor 7 has input, and the thread is given descriptor 8.
wrong_thread :
    epoll_et kernel (record { fd = 3; events = 1 } ∷ record { fd = 3; events = 1 } ∷ events) 3 state
    ≡ record state {
      connfd = pos 8;
      waiting = [];
      trace =
          added (pos 7) 2147483649
          ∷ flagged (pos 7) 2050
          ∷ added (pos 8) 2147483649
          ∷ flagged (pos 8) 2050
          ∷ thread (pos 8)
          ∷ [];
    }
unfolding with_nonblock
wrong_thread =
    epoll_et-last kernel 3 (1 ∷ 1 ∷ []) (7 ∷ 8 ∷ []) [] events state (λ t. refl) refl refl
      (omega arith)

epoll_lt-stale_example :
    epoll_lt kernel events 3 (replicate 5 b'x' ++ (codes "old" ++ 0 ∷ [])) state
    ≡ done (act (printed 5 (codes "helloold")) (leaves 7 (nothing_yet ∷ []) state))
unfolding epoll_lt
epoll_lt-stale_example =
    epoll_lt-stale kernel 3 (record { fd = 7; events = 1 }) [] state (codes "hello")
      (replicate 5 b'x') (nothing_yet ∷ []) (omega arith) refl refl (omega arith) refl (omega arith)
      (codes "old") [] (omega arith)

epoll_lt-overflow_example : epoll_lt kernel events 3 (replicate 5 b'x') state ≡ fault out_of_bounds
epoll_lt-overflow_example =
    epoll_lt-overflow kernel 3 (record { fd = 7; events = 1 }) [] state (codes "hello")
      (replicate 5 b'x') (nothing_yet ∷ []) (omega arith) refl refl (omega arith) refl (omega arith)

epoll_et_drain-whole_example :
    epoll_et_drain kernel 9 events 3 state ≡ done (all_read true 7 (codes "hello" ∷ []) [] state)
unfolding epoll_et_drain
epoll_et_drain-whole_example =
    epoll_et_drain-whole kernel 9 (record { fd = 7; events = 1 }) [] 3 true (codes "hello" ∷ []) []
      state (omega arith) refl (omega arith) (omega arith) refl

main_fails_run :
    (EpollMain.main kernel net (codes "server" ∷ []) [] state ≡ fault exited)
    × (EpollMain.main kernel net (codes "server" ∷ codes "::1" ∷ []) [] state ≡ fault null_pointer)
    × ((net.socket ≡ none)
          ⊎ ((net.bind 80 ≡ false) ⊎ ((net.listen ≡ false) ⊎ (net.epoll_create ≡ none)))
        → EpollMain.main kernel net (codes "server" ∷ codes "::1" ∷ codes "80" ∷ []) [] state
          ≡ fault assertion_failed)
main_fails_run = main_fails kernel net [] state (codes "server") (codes "::1") (codes "80") []

main-last_example :
    EpollMain.main kernel net
      (codes "server" ∷ codes "::1" ∷ codes "80" ∷ [])
      (asked 3 1 ∷ asked 3 1 ∷ some events ∷ [])
      state
    ≡ done (
        waits (record state {
          connfd = pos 8;
          waiting = [];
          trace =
              added (pos 3) 2147483649
              ∷ flagged (pos 3) 2050
              ∷ added (pos 7) 2147483649
              ∷ flagged (pos 7) 2050
              ∷ added (pos 8) 2147483649
              ∷ flagged (pos 8) 2050
              ∷ thread (pos 8)
              ∷ [];
        }))
unfolding with_nonblock
main-last_example =
    main-last kernel net (codes "server") (codes "::1") (codes "80") [] (1 ∷ 1 ∷ []) (7 ∷ 8 ∷ []) []
      events state 3 4 refl refl refl refl (λ t. refl) refl refl (omega arith) (refl, tt, tt)
