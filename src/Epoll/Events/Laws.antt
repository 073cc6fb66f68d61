-- ===== src/Epoll/Events/Laws.antt =====
-- Which connection a thread of the server on epoll is given, and what `epoll_lt` writes.
use face_perception.Common.{
  ℕ, zero, suc, ◌+◌, ◌≤◌, ◌≡◌, ◌≢◌, refl, sym, ap, ◌∙◌, map, inl, inr, true, Bytes, List, [], ◌∷◌,
  ◌++◌, arith, ==_ne, ==_refl, if◌then◌else◌, All, length, take, drop, replicate, append_assoc,
  append-nil, drop-append, length-append, All-append, Bool-cases,
}
use face_perception.Common.Int.{ℤ, pos}
use face_perception.Outcome.{done, fault, out_of_bounds, ◌>>=◌, >>=-assoc}
use face_perception.Memory.{write, c_text}
use face_perception.Memory.Laws.{IsText, c_text_lem, write_lem}
use face_perception.Epoll.Events.{
  Arrival, chunk, leaves, Ready, Action, added, flagged, thread, System, State, act, epollin,
  epollet, with_nonblock, is_in, setnonblocking, addfd, accept, epoll_et, recv_chunk, epoll_lt,
  printed,
}

-- The events that tell of input.
abbrev pub readable : List Ready → ℕ
readable [] = 0
readable (e ∷ es) = if is_in e.events then suc (readable es) else readable es

module _ (sys : System) (listen_sock : ℕ) (create : (t : List Action) → sys.creates t ≡ true) where
  -- Whichever connections have input, a thread is given `connfd`.
  pub epoll_et-connfd :
      (es : List Ready) (s : State)
      → All (λ e. e.fd ≢ listen_sock) es
      → epoll_et sys es listen_sock s
        ≡ record s { trace = s.trace ++ replicate (readable es) (thread s.connfd) }
  unfolding epoll_et
  epoll_et-connfd [] s h = ap (λ t. record s { trace = t }) (sym (append-nil s.trace))
  epoll_et-connfd (e ∷ es) s h = elim (Bool-cases (is_in e.events)) [
    | inl in_ ↦ rw (
      ==_ne e.fd listen_sock h.0,
      in_,
      create s.trace,
      epoll_et-connfd es (act (thread s.connfd) s) h.1,
      append_assoc s.trace (thread s.connfd ∷ []) (replicate (readable es) (thread s.connfd)),
    )
    | inr other ↦ rw (==_ne e.fd listen_sock h.0, other) (epoll_et-connfd es s h.1)
  ]

-- What is done for the connections that are accepted.
abbrev pub registered : System → List ℕ → List Action
registered sys [] = []
registered sys (fd ∷ fds) =
    added (pos fd) (epollin + epollet)
    ∷ flagged (pos fd) (with_nonblock (sys.flags (pos fd)))
    ∷ registered sys fds

abbrev pub last_fd : ℤ → List ℕ → ℤ
last_fd d [] = d
last_fd d (fd ∷ fds) = last_fd (pos fd) fds

pub accept_lem :
    (s : State) (fd : ℕ) (fds : List ℕ)
    → s.waiting ≡ fd ∷ fds
    → accept s ≡ record s { connfd = pos fd; waiting = fds }
unfolding accept
accept_lem s fd fds e = rw e

-- Events of the listening socket, with these bits.
abbrev pub listening : ℕ → List ℕ → List Ready
listening listen_sock = map (λ b. record { fd = listen_sock; events = b })

module _ (sys : System) (listen_sock : ℕ) where
  abbrev registered_state : List ℕ → List ℕ → State → State
  registered_state fds w s = record s {
    connfd = last_fd s.connfd fds;
    waiting = w;
    trace = s.trace ++ registered sys fds;
  }

  epoll_et-accepts :
      (bits : List ℕ) (fds w : List ℕ) (es : List Ready) (s : State)
      → length bits ≡ length fds
      → s.waiting ≡ fds ++ w
      → epoll_et sys (listening listen_sock bits ++ es) listen_sock s
        ≡ epoll_et sys es listen_sock (registered_state fds w s)
  unfolding epoll_et addfd setnonblocking
  epoll_et-accepts [] [] w es s n e = rw (← e, append-nil s.trace)
  epoll_et-accepts [] (fd ∷ fds) w es s n e = absurd (omega arith)
  epoll_et-accepts (b ∷ bits) [] w es s n e = absurd (omega arith)
  epoll_et-accepts (b ∷ bits) (fd ∷ fds) w es s n e =
      rw
        (
          ==_refl listen_sock,
          accept_lem s fd (fds ++ w) e,
          epoll_et-accepts bits fds w es
              (addfd sys (pos fd) true (record s { connfd = pos fd; waiting = fds ++ w }))
              (omega arith) refl,
        )
        (simp append_assoc)

  -- If connections are accepted in a call and other events follow, every accepted connection is
  -- watched edge-triggered and made non-blocking, and then each event of a connection with input
  -- starts a thread for the connection that was accepted last, whichever has the input. Every
  -- accepted connection has been waiting, and threads can be created.
  pub epoll_et-last :
      (bits fds w : List ℕ) (es : List Ready) (s : State)
      → ((t : List Action) → sys.creates t ≡ true)
      → length bits ≡ length fds
      → s.waiting ≡ fds ++ w
      → All (λ e. e.fd ≢ listen_sock) es
      → epoll_et sys (listening listen_sock bits ++ es) listen_sock s ≡ record s {
        connfd = last_fd s.connfd fds;
        waiting = w;
        trace =
            s.trace
            ++ (registered sys fds ++ replicate (readable es) (thread (last_fd s.connfd fds)));
      }
  epoll_et-last bits fds w es s create n e h =
      rw
        (
          epoll_et-accepts bits fds w es s n e,
          epoll_et-connfd sys listen_sock create es (registered_state fds w s) h,
        )
        (simp append_assoc)

clear_lem :
    (p t : Bytes)
    → 4 ≤ length p
    → (q : Bytes) × (write (p ++ t) 0 (0 ∷ 0 ∷ 0 ∷ 0 ∷ []) ≡ done (q ++ t)) × (length q ≡ length p)
unfolding write
clear_lem (a ∷ b ∷ c ∷ d ∷ p) t h = (0 ∷ 0 ∷ 0 ∷ 0 ∷ p, ground arith, refl)
clear_lem _ t h = absurd (omega arith)

write_over : (q t c : Bytes) → length c ≡ length q → write (q ++ t) 0 c ≡ done (c ++ t)
write_over q t c e =
    let z : 0 + length c ≡ length q = omega arith in
    rw (write_lem (q ++ t) 0 c (omega (arith, length-append q t)), z, drop-append q t)

take-nil : (n : ℕ) → take {A = ℕ} n [] ≡ []
take-nil zero = refl
take-nil (suc n) = refl

drop-nil : (n : ℕ) → drop {A = ℕ} n [] ≡ []
drop-nil zero = refl
drop-nil (suc n) = refl

-- A chunk of the length of `q` is read whole.
take-all : (q t c : Bytes) → length c ≡ length q → take (length (q ++ t)) c ≡ c
take-all q t [] e = take-nil (length (q ++ t))
take-all [] t (x ∷ c) e = absurd (omega arith)
take-all (y ∷ q) t (x ∷ c) e = ap (◌∷◌ x) (take-all q t c (omega arith))

drop-all : (q t c : Bytes) → length c ≡ length q → drop (length (q ++ t)) c ≡ []
drop-all q t [] e = drop-nil (length (q ++ t))
drop-all [] t (x ∷ c) e = absurd (omega arith)
drop-all (y ∷ q) t (x ∷ c) e = drop-all q t c (omega arith)

c_text-outside : (c : Bytes) → IsText c → c_text c ≡ fault out_of_bounds
unfolding c_text
c_text-outside [] h = refl
c_text-outside (x ∷ c) h = rw (==_ne x 0 h.0, c_text-outside c h.1)

module _ (sys : System) (listen_sock : ℕ) (e : Ready) (es : List Ready) (s : State) (c p : Bytes)
    (more : List Arrival) (other : e.fd ≢ listen_sock) (input : is_in e.events ≡ true)
    (comes : s.received e.fd ≡ chunk c ∷ more) (wide : 4 ≤ length p) (len : length c ≡ length p)
    (text : IsText c) where
  epoll_lt-chunk :
      (t : Bytes)
      → epoll_lt sys (e ∷ es) listen_sock (p ++ t) s ≡ (
          c_text (c ++ t) >>= λ out.
          epoll_lt sys es listen_sock (c ++ t) (act (printed (length c) out) (leaves e.fd more s)))
  unfolding epoll_lt recv_chunk
  epoll_lt-chunk t =
      let (q, cleared, n) = clear_lem p t wide in
      rw
        (
          ==_ne e.fd listen_sock other,
          input,
          cleared,
          comes,
          take-all q t c (omega arith),
          drop-all q t c (omega arith),
          write_over q t c (omega arith),
        )
        (>>=-assoc (c_text (c ++ t)) _ _)

  -- For an event of a connection with input, a chunk of four bytes or more, without a zero byte and
  -- shorter than the array, is written to the console together with the text that stands behind it in
  -- the array from before, which no `memset` has cleared; the other events follow with the array as
  -- it is then.
  pub epoll_lt-stale :
      (g r : Bytes)
      → IsText g
      → epoll_lt sys (e ∷ es) listen_sock (p ++ (g ++ 0 ∷ r)) s
        ≡ epoll_lt sys es listen_sock
            (c ++ (g ++ 0 ∷ r))
            (act (printed (length c) (c ++ g)) (leaves e.fd more s))
  epoll_lt-stale g r h =
      let all = c_text_lem (c ++ g) r (All-append (λ x. x ≢ 0) c g text h) in
      epoll_lt-chunk (g ++ 0 ∷ r) ∙ rw (← append_assoc c g (0 ∷ r), all)

  -- For an event of a connection with input, a chunk without a zero byte that fills the array, of four
  -- bytes or more, is read past the end of the array when it is written to the console.
  pub epoll_lt-overflow : epoll_lt sys (e ∷ es) listen_sock p s ≡ fault out_of_bounds
  epoll_lt-overflow =
      let full = epoll_lt-chunk [] in rw (append-nil p, append-nil c, c_text-outside c text) at full
