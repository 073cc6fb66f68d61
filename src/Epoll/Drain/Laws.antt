-- ===== src/Epoll/Drain/Laws.antt =====
-- What is written of what a connection holds.
use face_perception.Common.{
  ℕ, zero, suc, Bool, true, false, if◌then◌else◌, ◌-◌, ◌≤◌, ◌<◌, ◌≡◌, ◌≢◌, refl, ap, ◌∙◌, Bytes,
  List, [], ◌∷◌, ◌++◌, append_assoc, append-nil, arith, ==_ne, ==_refl, ◌==◌, fun_ext, Bool-cases,
  inl, inr, All, map, length, take, drop,
}
use face_perception.Outcome.{done}
use face_perception.Memory.{zeros}
use face_perception.Memory.Laws.{IsText, c_text_lem, write_start, length-zeros, drop-zeros_lt}
use face_perception.Epoll.Request.{array_size}
use face_perception.Epoll.Events.{
  Arrival, chunk, nothing_yet, ended, closed, leave, leaves, Ready, Action, printed, System, State,
  act, is_in,
}
use face_perception.Epoll.Drain.{drain, epoll_et_drain}

-- A chunk that one call reads.
abbrev pub IsChunk : Bytes → Type 0
IsChunk c = IsText c × (length c < array_size)

take-short : (n : ℕ) (c : Bytes) → length c ≤ n → take n c ≡ c
take-short zero [] h = refl
take-short zero (x ∷ c) h = elim h [ ]
take-short (suc n) [] h = refl
take-short (suc n) (x ∷ c) h = ap (◌∷◌ x) (take-short n c (omega arith))

drop-short : (n : ℕ) (c : Bytes) → length c ≤ n → drop n c ≡ []
drop-short zero [] h = refl
drop-short zero (x ∷ c) h = elim h [ ]
drop-short (suc n) [] h = refl
drop-short (suc n) (x ∷ c) h = drop-short n c (omega arith)

drain-chunk :
    (fuel sockfd : ℕ) (c : Bytes) (more : List Arrival) (s : State)
    → IsChunk c
    → s.received sockfd ≡ chunk c ∷ more
    → drain (suc fuel) sockfd s
      ≡ drain fuel sockfd (act (printed (length c) c) (leaves sockfd more s))
unfolding drain
drain-chunk fuel sockfd c more s h e = rw (
  e,
  take-short (array_size - 1) c (omega (arith, h.1)),
  drop-short (array_size - 1) c (omega (arith, h.1)),
  write_start (zeros array_size) c (omega (arith, h.1, length-zeros array_size)),
  drop-zeros_lt (length c) array_size h.1,
  c_text_lem c (zeros (array_size - length c - 1)) h.0,
)

-- What is written for the chunks of a connection.
abbrev pub chunk_lines : List Bytes → List Action
chunk_lines = map (λ c. printed (length c) c)

-- What stands behind the chunks: nothing yet, if the connection stays, or an error or its end.
abbrev pub last_arrival : Bool → Arrival
last_arrival stays = if stays then nothing_yet else ended

-- What is done about it.
abbrev pub last_actions : Bool → ℕ → List Action
last_actions stays sockfd = if stays then [] else closed sockfd ∷ []

-- The state when the chunks have been read and written.
abbrev pub all_read : Bool → ℕ → List Bytes → List Arrival → State → State
all_read stays sockfd cs more s = record s {
  received = leave sockfd more s.received;
  trace = s.trace ++ (chunk_lines cs ++ last_actions stays sockfd);
}

drain_end :
    (fuel sockfd : ℕ) (stays : Bool) (more : List Arrival) (s : State)
    → s.received sockfd ≡ last_arrival stays ∷ more
    → drain (suc fuel) sockfd s ≡ done (all_read stays sockfd [] more s)
unfolding drain
drain_end fuel sockfd true more s e = rw e (rw (append-nil s.trace))
drain_end fuel sockfd false more s e = rw e

leave_self : (fd : ℕ) (l : List Arrival) (r : ℕ → List Arrival) → leave fd l r fd ≡ l
leave_self fd l r = rw (==_refl fd)

leave_twice :
    (fd : ℕ) (l k : List Arrival) (r : ℕ → List Arrival) → leave fd l (leave fd k r) ≡ leave fd l r
leave_twice fd l k r =
    fun_ext (λ d. elim (Bool-cases (d == fd)) [ inl same ↦ rw same | inr other ↦ rw other ])

drain_lem :
    (fuel sockfd : ℕ) (stays : Bool) (cs : List Bytes) (more : List Arrival) (s : State)
    → All IsChunk cs
    → length cs < fuel
    → s.received sockfd ≡ map chunk cs ++ last_arrival stays ∷ more
    → drain fuel sockfd s ≡ done (all_read stays sockfd cs more s)
drain_lem zero sockfd stays cs more s h enough e = elim enough [ ]
drain_lem (suc fuel) sockfd stays [] more s h enough e = drain_end fuel sockfd stays more s e
drain_lem (suc fuel) sockfd stays (c ∷ cs) more s h enough e =
    let left : List Arrival = map chunk cs ++ last_arrival stays ∷ more in
    let s' : State = act (printed (length c) c) (leaves sockfd left s) in
    drain-chunk fuel sockfd c left s h.0 e
    ∙ drain_lem fuel sockfd stays cs more s' h.1 (omega arith) (leave_self sockfd left s.received)
    ∙ rw (
      leave_twice sockfd more left s.received,
      append_assoc s.trace (printed (length c) c ∷ [])
          (chunk_lines cs ++ last_actions stays sockfd),
    )

-- In a build without DEBUG, for an event of a connection with input: every chunk that has come on that
-- connection is written, in order and nothing else; then the connection stays open if nothing more
-- has come yet, and is closed if it has ended or failed; what the other connections hold is left to
-- the events that follow. A chunk is shorter than the array and holds no zero byte, and the fuel is
-- more than the number of chunks.
pub epoll_et_drain-whole :
    (sys : System) (fuel : ℕ) (e : Ready) (es : List Ready) (listen_sock : ℕ) (stays : Bool)
    (cs : List Bytes) (more : List Arrival) (s : State)
    → e.fd ≢ listen_sock
    → is_in e.events ≡ true
    → All IsChunk cs
    → length cs < fuel
    → s.received e.fd ≡ map chunk cs ++ last_arrival stays ∷ more
    → epoll_et_drain sys fuel (e ∷ es) listen_sock s
      ≡ epoll_et_drain sys fuel es listen_sock (all_read stays e.fd cs more s)
unfolding epoll_et_drain
epoll_et_drain-whole sys fuel e es listen_sock stays cs more s other input h enough r =
    rw (==_ne e.fd listen_sock other, input, drain_lem fuel e.fd stays cs more s h enough r)
