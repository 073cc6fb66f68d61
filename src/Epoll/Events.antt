-- ===== src/Epoll/Events.antt =====
-- server/server.h: `setnonblocking`, `addfd`, `epoll_et` and `epoll_lt`, the handling of the
-- events that `epoll_wait` reports.
pub mod Laws
use face_perception.Common.{
  ℕ, ◌+◌, ◌/◌, ◌%◌, ◌^◌, Bool, true, false, Bytes, Option, some, none, List, [], ◌∷◌, ◌++◌, ◌==◌,
  if◌then◌else◌, take, drop, length, ltb,
}
use face_perception.Common.Int.{ℤ, pos, negsuc}
use face_perception.Outcome.{Outcome, done, ◌>>=◌}
use face_perception.Memory.{write, c_text}

-- An `epoll_event`: the descriptor, and its bits.
pub record Ready : Type 0 where
  pub fd : ℕ
  pub events : ℕ

-- What the handlers do: `epoll_ctl(EPOLL_CTL_ADD)` with its bits, `fcntl(F_SETFL)`, a thread that
-- is given a connection, a line about what was received, and a closed descriptor.
pub data Action : Type 0 where
  added : ℤ → ℕ → Action
  flagged : ℤ → ℕ → Action
  thread : ℤ → Action
  printed : ℕ → Bytes → Action
  closed : ℕ → Action

-- The system: the flags of a descriptor, and whether `pthread_create` succeeds.
pub record System : Type 0 where
  pub flags : ℤ → ℕ
  pub creates : List Action → Bool

-- What a call of `recv` meets: bytes that have come, nothing yet, so that it fails with EAGAIN, or
-- another error or the end of a closed connection.
pub data Arrival : Type 0 where
  chunk : Bytes → Arrival
  nothing_yet : Arrival
  ended : Arrival

-- The static `connfd` of the handler; the connections that wait at the listening socket; what the
-- calls of `recv` on each descriptor meet, and at the end of it nothing yet; and the trace, oldest
-- first.
pub record State : Type 0 where
  pub connfd : ℤ
  pub waiting : List ℕ
  pub received : ℕ → List Arrival
  pub trace : List Action

abbrev pub act : Action → State → State
act a s = record s { trace = s.trace ++ a ∷ [] }

-- What is left for one descriptor, while the others keep theirs.
abbrev pub leave : ℕ → List Arrival → (ℕ → List Arrival) → ℕ → List Arrival
leave sockfd more received fd = if fd == sockfd then more else received fd

abbrev pub leaves : ℕ → List Arrival → State → State
leaves sockfd more s = record s { received = leave sockfd more s.received }

-- EPOLLIN, EPOLLET and O_NONBLOCK.
abbrev pub epollin : ℕ
epollin = 1

abbrev pub epollet : ℕ
epollet = 2 ^ 31

abbrev pub o_nonblock : ℕ
o_nonblock = 2048

-- `flags | O_NONBLOCK`
unfoldable pub with_nonblock : ℕ → ℕ
with_nonblock flags = if flags / o_nonblock % 2 == 0 then flags + o_nonblock else flags

-- `events & EPOLLIN`
abbrev pub is_in : ℕ → Bool
is_in events = events % 2 == 1

-- What a call of `recv` leaves of a chunk.
abbrev pub keep : Bytes → List Arrival → List Arrival
keep [] more = more
keep (c ∷ cs) more = chunk (c ∷ cs) ∷ more

-- `connfd = accept(…)`, which is -1 if no connection waits.
unfoldable pub accept : State → State
accept s = elim s.waiting [
  | [] ↦ record s { connfd = negsuc 0 }
  | fd ∷ fds ↦ record s { connfd = pos fd; waiting = fds }
]

-- `recv(sockfd, buf, BUF_SIZE, 0)` takes at most as many bytes as `buf` has, and leaves the others
-- for the next call. A chunk is not empty. Every failure closes the descriptor, EAGAIN too.
abbrev pub recv_from : ℕ → Bytes → State → List Arrival → Outcome (Bytes × State)
recv_from sockfd buf s [] = done (buf, act (closed sockfd) s)
recv_from sockfd buf s (nothing_yet ∷ more) = done (buf, act (closed sockfd) (leaves sockfd more s))
recv_from sockfd buf s (ended ∷ more) = done (buf, act (closed sockfd) (leaves sockfd more s))
recv_from sockfd buf s (chunk c ∷ more) = do
  let got = take (length buf) c
  buf' ← write buf 0 got
  text ← c_text buf'
  done (buf', act (printed (length got) text) (leaves sockfd (keep (drop (length buf) c) more) s))

unfoldable pub recv_chunk : ℕ → Bytes → State → Outcome (Bytes × State)
recv_chunk sockfd buf s = recv_from sockfd buf s (s.received sockfd)

module _ (sys : System) where
  unfoldable pub setnonblocking : ℤ → State → State
  setnonblocking sock s = act (flagged sock (with_nonblock (sys.flags sock))) s

  -- With `flag` the descriptor is watched edge-triggered.
  unfoldable pub addfd : ℤ → Bool → State → State
  addfd sock flag s =
      setnonblocking sock (act (added sock (if flag then epollin + epollet else epollin)) s)

  -- The build with DEBUG, which server.h defines: one thread for each event of a connection. If it
  -- cannot be created, the other events are left.
  unfoldable pub epoll_et : List Ready → ℕ → State → State
  epoll_et [] listen_sock s = s
  epoll_et (e ∷ event) listen_sock s =
      let accepted = accept s in
      let more = epoll_et event listen_sock (addfd accepted.connfd true accepted) in
      let started = epoll_et event listen_sock (act (thread s.connfd) s) in
      let others = epoll_et event listen_sock s in
      if e.fd == listen_sock
      then more
      else if is_in e.events
      then (if sys.creates s.trace then started else s)
      else others

  -- `buf` is what the array holds, which is not set to start with; `memset` is given the size of an
  -- `int`, and so clears four bytes of it.
  unfoldable pub epoll_lt : List Ready → ℕ → Bytes → State → Outcome State
  epoll_lt [] listen_sock buf s = done s
  epoll_lt (e ∷ events) listen_sock buf s =
      let accepted = accept s in
      let more = epoll_lt events listen_sock buf (addfd accepted.connfd false accepted) in
      let others = epoll_lt events listen_sock buf s in
      let read = (do
        cleared ← write buf 0 (0 ∷ 0 ∷ 0 ∷ 0 ∷ [])
        (buf', s') ← recv_chunk e.fd cleared s
        epoll_lt events listen_sock buf' s') in
      if e.fd == listen_sock then more else if is_in e.events then read else others
