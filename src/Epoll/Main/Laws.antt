-- ===== src/Epoll/Main/Laws.antt =====
-- The start of the server on epoll, and the work of a whole run.
use face_perception.Common.{
  ℕ, ◌≡◌, refl, ◌⊎◌, true, false, Bytes, Option, some, none, List, [], ◌∷◌, ◌++◌, arith, replicate,
  All, append_assoc, append-nil, ◌≢◌, length, map, ==_refl, inl, inr, Bool-cases, ◌==◌, ==_iff,
  subst, sym,
}
use face_perception.Common.Int.{pos}
use face_perception.Outcome.{done, fault, exited, null_pointer, assertion_failed}
use face_perception.Net.{Sockets, to_port}
use face_perception.Http.Cgi.{atoi}
use face_perception.Epoll.Events.{
  Ready, Action, thread, System, State, addfd, setnonblocking, epoll_et,
}
use face_perception.Epoll.Events.Laws.{readable, registered, last_fd, accept_lem, epoll_et-connfd}
use face_perception.Epoll.Main.{get_sock, serve, main, waits, is_watched, IsReport}

-- Without an argument the server exits; with an address but no port it reads a null pointer; and if
-- one of `socket`, `bind`, `listen` and `epoll_create` fails, an assertion fails.
pub main_fails :
    (sys : System) (net : Sockets) (reports : List (Option (List Ready))) (s : State)
    (program ip port : Bytes) (more : List Bytes)
    → (main sys net (program ∷ []) reports s ≡ fault exited)
      × (main sys net (program ∷ ip ∷ []) reports s ≡ fault null_pointer)
      × ((net.socket ≡ none)
            ⊎ ((net.bind (to_port (atoi port)) ≡ false)
                ⊎ ((net.listen ≡ false) ⊎ (net.epoll_create ≡ none)))
          → main sys net (program ∷ ip ∷ port ∷ more) reports s ≡ fault assertion_failed)
unfolding main get_sock
main_fails sys net reports s program ip port more = (refl, refl, λ h. ground arith)

-- A report that tells of a connection at the listening socket only.
abbrev pub asked : ℕ → ℕ → Option (List Ready)
asked sock b = some (record { fd = sock; events = b } ∷ [])

-- A state with these connections accepted.
abbrev accepted_all : System → List ℕ → List ℕ → State → State
accepted_all sys fds w s = record s {
  connfd = last_fd s.connfd fds;
  waiting = w;
  trace = s.trace ++ registered sys fds;
}

serve-asked :
    (sys : System) (sock : ℕ) (bits fds w : List ℕ) (reports : List (Option (List Ready)))
    (s : State)
    → length bits ≡ length fds
    → s.waiting ≡ fds ++ w
    → serve sys sock (map (asked sock) bits ++ reports) s
      ≡ serve sys sock reports (accepted_all sys fds w s)
unfolding serve epoll_et addfd setnonblocking
serve-asked sys sock [] [] w reports s n e = rw (← e, append-nil s.trace)
serve-asked sys sock [] (fd ∷ fds) w reports s n e = absurd (omega arith)
serve-asked sys sock (b ∷ bits) [] w reports s n e = absurd (omega arith)
serve-asked sys sock (b ∷ bits) (fd ∷ fds) w reports s n e =
    rw
      (
        ==_refl sock,
        accept_lem s fd (fds ++ w) e,
        serve-asked sys sock bits fds w reports
            (addfd sys (pos fd) true (record s { connfd = pos fd; waiting = fds ++ w }))
            (omega arith) refl,
      )
      (simp append_assoc)

is_watched-other :
    (ws : List ℕ) (sock fd : ℕ) → All (λ w. w ≢ sock) ws → is_watched ws fd ≡ true → fd ≢ sock
is_watched-other [] sock fd h e = cc
is_watched-other (w ∷ ws) sock fd h e = elim (Bool-cases (fd == w)) [
  | inl same ↦ subst (λ n. n ≢ sock) (sym ((==_iff fd w).0 same)) h.0
  | inr other ↦ is_watched-other ws sock fd h.1 (rw other at e)
]

others :
    (sock : ℕ) (ws : List ℕ) (es : List Ready)
    → All (λ w. w ≢ sock) ws
    → IsReport ws es
    → All (λ e. e.fd ≢ sock) es
others sock ws [] h r = tt
others sock ws (e ∷ es) h r = (is_watched-other ws sock e.fd h r.0, others sock ws es h r.2)

-- A run in which the connections `fds`, which are other descriptors than the listening socket, are
-- accepted, each after a report of its own, and a report follows that tells of accepted connections,
-- of each at most once: the listening socket and every connection are watched edge-triggered, and
-- each event with input starts a thread for the connection that was accepted last, whichever has the
-- input; the server then waits. Threads can be created.
pub main-last :
    (sys : System) (net : Sockets) (program ip port : Bytes) (more : List Bytes)
    (bits fds w : List ℕ) (es : List Ready) (s : State) (sock epoll_fd : ℕ)
    → net.socket ≡ some sock
    → net.bind (to_port (atoi port)) ≡ true
    → net.listen ≡ true
    → net.epoll_create ≡ some epoll_fd
    → ((t : List Action) → sys.creates t ≡ true)
    → length bits ≡ length fds
    → s.waiting ≡ fds ++ w
    → All (λ fd. fd ≢ sock) fds
    → IsReport fds es
    → main sys net (program ∷ ip ∷ port ∷ more) (map (asked sock) bits ++ some es ∷ []) s
      ≡ done (
          waits (record s {
            connfd = last_fd s.connfd fds;
            waiting = w;
            trace =
                s.trace
                ++ (registered sys (sock ∷ fds)
                    ++ replicate (readable es) (thread (last_fd s.connfd fds)));
          }))
unfolding main get_sock serve addfd setnonblocking
main-last sys net program ip port more bits fds w es s sock epoll_fd a b l p create n e h r =
    rw
      (
        a,
        b,
        l,
        p,
        serve-asked sys sock bits fds w (some es ∷ []) (addfd sys (pos sock) true s) n e,
        epoll_et-connfd sys sock create es (accepted_all sys fds w (addfd sys (pos sock) true s))
            (others sock fds es h r),
      )
      (simp append_assoc)
