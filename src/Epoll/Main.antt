-- ===== src/Epoll/Main.antt =====
-- server/server.h: `get_sock`; server/server.cpp: `main`.
pub mod Laws
use face_perception.Common.{
  ℕ, Bool, true, false, not, Bytes, Option, some, none, List, [], ◌∷◌, if◌then◌else◌, ◌==◌, ◌≡◌,
  ◌≢◌, All,
}
use face_perception.Common.Int.{ℤ, pos, negsuc}
use face_perception.Outcome.{
  Outcome, done, fault, exited, null_pointer, assertion_failed, ◌>>=◌, ◌>>◌, assert,
}
use face_perception.Net.{Sockets, to_port}
use face_perception.Http.Cgi.{atoi}
use face_perception.Epoll.Events.{Ready, closed, System, State, act, addfd, epoll_et}

-- A descriptor that an assertion wants not to be -1.
abbrev pub valid : Option ℕ → Outcome ℕ
valid none = fault assertion_failed
valid (some fd) = done fd

-- Every failure is a failed assertion.
unfoldable pub get_sock : Sockets → ℤ → Outcome ℕ
get_sock net port = do
  sock ← valid net.socket
  assert (net.bind (to_port port))
  assert net.listen
  done sock

-- Whether `main` has returned 0.
pub data Progress : Type 0 where
  waits : State → Progress
  returned : State → Progress

-- Whether a descriptor is one of those that have been added.
abbrev pub is_watched : List ℕ → ℕ → Bool
is_watched [] fd = false
is_watched (w ∷ ws) fd = if fd == w then true else is_watched ws fd

-- What the documentation of `epoll_wait` says of a report: it tells of descriptors that have been
-- added, and of each at most once.
abbrev pub IsReport : List ℕ → List Ready → Type 0
IsReport watched [] = Unit {0}
IsReport watched (e ∷ es) =
    (is_watched watched e.fd ≡ true) × All (λ d. d.fd ≢ e.fd) es × IsReport watched es

module _ (sys : System) where
  -- The loop of `main`, for what the calls of `epoll_wait`, code outside the repository, report;
  -- `none` is a failure, which ends the loop.
  unfoldable pub serve : ℕ → List (Option (List Ready)) → State → Progress
  serve sock [] s = waits s
  serve sock (none ∷ reports) s = returned (act (closed sock) s)
  serve sock (some events ∷ reports) s = serve sock reports (epoll_et sys events sock s)

  -- The port is read from `argv[2]` whenever there is an `argv[1]`.
  unfoldable pub main : Sockets → List Bytes → List (Option (List Ready)) → State → Outcome Progress
  main net (program ∷ ip ∷ port ∷ more) reports s = do
    sock ← get_sock net (atoi port)
    epoll_fd ← valid net.epoll_create
    done (serve sock reports (addfd sys (pos sock) true s))
  main net (program ∷ ip ∷ []) reports s = fault null_pointer
  main net argv reports s = fault exited
