-- ===== src/Epoll/Drain.antt =====
-- server/server.h: the branch of `epoll_et` that a build without DEBUG has, which reads all that a
-- connection holds.
pub mod Laws
use face_perception.Common.{
  ℕ, zero, suc, ◌+◌, ◌-◌, Bool, true, false, Bytes, Option, some, none, List, [], ◌∷◌, ◌++◌, ◌==◌,
  if◌then◌else◌, take, drop, length,
}
use face_perception.Common.Int.{ℤ}
use face_perception.Outcome.{Outcome, done, spins, ◌>>=◌}
use face_perception.Memory.{zeros, write, c_text}
use face_perception.Epoll.Request.{array_size}
use face_perception.Epoll.Events.{
  Ready, Arrival, chunk, nothing_yet, ended, printed, closed, System, State, act, leaves, keep,
  is_in, accept, addfd,
}

-- A round of `while (1)`, and whether another follows: at EAGAIN the connection stays open; at another
-- error, and when the peer has closed it, it is closed.
abbrev pub drain_from : ℕ → State → List Arrival → Outcome (Bool × State)
drain_from sockfd s [] = done (false, s)
drain_from sockfd s (nothing_yet ∷ more) = done (false, leaves sockfd more s)
drain_from sockfd s (ended ∷ more) = done (false, act (closed sockfd) (leaves sockfd more s))
drain_from sockfd s (chunk c ∷ more) = do
  let got = take (array_size - 1) c
  buf ← write (zeros array_size) 0 got
  text ← c_text buf
  done (
    true,
    act (printed (length got) text) (leaves sockfd (keep (drop (array_size - 1) c) more) s),
  )

unfoldable pub drain : ℕ → ℕ → State → Outcome State
drain zero sockfd s = spins
drain (suc fuel) sockfd s = do
  round ← drain_from sockfd s (s.received sockfd)
  let rest = drain fuel sockfd round.1
  if round.0 then rest else done round.1

module _ (sys : System) where
  unfoldable pub epoll_et_drain : ℕ → List Ready → ℕ → State → Outcome State
  epoll_et_drain fuel [] listen_sock s = done s
  epoll_et_drain fuel (e ∷ event) listen_sock s =
      let accepted = accept s in
      let more = epoll_et_drain fuel event listen_sock (addfd sys accepted.connfd true accepted) in
      let others = epoll_et_drain fuel event listen_sock s in
      let read = (drain fuel e.fd s >>= λ s'. epoll_et_drain fuel event listen_sock s') in
      if e.fd == listen_sock then more else if is_in e.events then read else others
