-- ===== src/Http/Main.antt =====
-- server/server_http.h: `get_sock` and `accept_request`; server/server_http.cpp: `main`. A thread
-- is run to its end before the next connection is accepted.
pub mod Laws
pub mod Keeps
pub mod Calls
use face_perception.Common.{ℕ, Bool, Bytes, Option, some, none, List, [], ◌∷◌, if◌then◌else◌}
use face_perception.Common.Int.{ℤ, negsuc}
use face_perception.Outcome.{Outcome, done, ◌>>=◌}
use face_perception.Net.{Sockets, to_port}
use face_perception.Attendance.Roster.{Calendar, Roster, new_roster}
use face_perception.Http.Line.{Input}
use face_perception.Http.World.{Os, World}
use face_perception.Http.Cgi.{atoi}
use face_perception.Http.Accept.{accept}

-- The listening socket, or -1.
unfoldable pub get_sock : Sockets → ℤ → Option ℕ
get_sock net port = elim net.socket [
  | none ↦ none
  | some server_sock ↦
      if net.bind (to_port port) then (if net.listen then some server_sock else none) else none
]

-- `GetSock`
abbrev class_sock : Sockets → ℤ → Option ℕ
class_sock net port = get_sock net port

-- A connection that `accept` returns: what comes over it, when it is handled, and whether its
-- thread can be created.
pub record Client : Type 0 where
  pub input : Input
  pub now : ℕ
  pub created : Bool

module _ (c : Calendar) (os : Os) (fuel ch : ℕ) where
  -- The thread of a connection: the handling of one request by the shared `server_class`.
  unfoldable pub accept_request : Client → Roster → Outcome Roster
  accept_request k r = do
    w ← accept c os fuel ch k.now (record { input = k.input; trace = []; roster = r })
    done w.roster

  -- The loop of `main`, for what the calls of `accept` return; `none` is -1. The result is the
  -- roster and what `main` returns, which is nothing while it waits for a connection.
  unfoldable pub serve : List (Option Client) → Roster → Outcome (Roster × Option ℤ)
  serve [] r = done (r, none)
  serve (none ∷ clients) r = done (r, some (negsuc 0))
  serve (some k ∷ clients) r =
      let served = (accept_request k r >>= λ r'. serve clients r') in
      if k.created then served else done (r, some (negsuc 0))

  -- `main` behind the call of `GetSock`, with its result.
  unfoldable pub start : Option ℕ → List (Option Client) → Outcome (Roster × Option ℤ)
  start none clients = done (new_roster, some (negsuc 0))
  start (some server_sock) clients = serve clients new_roster

  unfoldable pub main : Sockets → List Bytes → List (Option Client) → Outcome (Roster × Option ℤ)
  main net (program ∷ port ∷ more) clients = start (class_sock net (atoi port)) clients
  main net argv clients = done (new_roster, some (negsuc 0))
