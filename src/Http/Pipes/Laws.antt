-- ===== src/Http/Pipes/Laws.antt =====
-- server/server_http.h: the descriptors of `exec_cgi` when its calls succeed, and when a `pipe` fails.
use face_perception.Common.{
  ℕ, ◌<◌, ◌≡◌, ◌≢◌, refl, sym, ap, ◌∙◌, true, false, Option, none, some, arith, ◌==◌, if◌then◌else◌,
  Bool-cases, inl, inr, ==_iff, ==_refl, ==_ne,
}
use face_perception.Outcome.{done}
use face_perception.Http.Pipes.{
  End, input_read, input_write, output_read, output_write, Table, assign_fd, close, open_input,
  open_output, child_fds, parent_fds, parent_end, Tables, forked, exec_cgi_fds,
}

-- What `pipe` gives twice: four descriptors that were not open, behind the three of a program.
pub record AreFresh (t : Table) (r w r' w' : ℕ) : Type 0 where
  pub above : (2 < r) × (2 < w) × (2 < r') × (2 < w')
  pub apart : (r ≢ w) × (r ≢ r') × (r ≢ w') × (w ≢ r') × (w ≢ w') × (r' ≢ w')
  pub closed : (t r ≡ none) × (t w ≡ none) × (t r' ≡ none) × (t w' ≡ none)

-- A descriptor that a call has opened and a later one has closed is as before.
closed_again :
    (t : Table) (fd x : ℕ) (rest : Option End)
    → t x ≡ none
    → ((fd == x) ≡ false → rest ≡ t fd)
    → (if fd == x then none else rest) ≡ t fd
closed_again t fd x rest h k = elim (Bool-cases (fd == x)) [
  | inl e ↦ rw e (sym (ap t ((==_iff fd x).0 e) ∙ h))
  | inr n ↦ rw n (k n)
]

last-restored :
    (t : Table) (r w r' w' : ℕ)
    → AreFresh t r w r' w'
    → (fd : ℕ) → (forked (open_output (some (r', w')) (open_input (some (r, w)) t))).last fd ≡ t fd
unfolding forked open_output open_input parent_fds parent_end
last-restored t r w r' w' h fd = closed_again t fd r' _ h.closed.2 λ n3.
    closed_again t fd w _ h.closed.1 λ n2.
      closed_again t fd w' _ h.closed.3
        λ n4. closed_again t fd r _ h.closed.0 λ n1. rw (n1, n2, n3, n4)

-- The table behind the two calls of `pipe`.
abbrev opened : Table → ℕ → ℕ → ℕ → ℕ → Table
opened t r w r' w' =
    assign_fd
      (assign_fd (assign_fd (assign_fd t r (some input_read)) w (some input_write)) r'
        (some output_read))
      w' (some output_write)

-- The ends that the program keeps, before they become its input and its output.
kept_ends :
    (t : Table) (r w r' w' : ℕ)
    → AreFresh t r w r' w'
    → (close r' (close w (opened t r w r' w')) r ≡ some input_read)
      × (close r' (close w (opened t r w r' w')) w' ≡ some output_write)
kept_ends t r w r' w' h =
    let (a, b, c, d, e, f) = h.apart in
    (
      rw (==_ne r r' b, ==_ne r w a, ==_ne r w' c, ==_refl r),
      rw (==_ne w' r' (λ k. f (sym k)), ==_ne w' w (λ k. e (sym k)), ==_refl w'),
    )

child-ends :
    (t : Table) (r w r' w' : ℕ)
    → AreFresh t r w r' w'
    → let child = (forked (open_output (some (r', w')) (open_input (some (r, w)) t))).child in
      (child 0 ≡ some input_read) × (child 1 ≡ some output_write)
unfolding forked open_output open_input child_fds
child-ends t r w r' w' h =
    let (first, second) = kept_ends t r w r' w' h in
    let n : (w' == 0) ≡ false = ==_ne w' 0 (omega (arith, h.above.3)) in
    rw (first, n, second) (refl, refl)

-- The parent keeps the end that it writes the body to.
talking-input_write :
    (t : Table) (r w r' w' : ℕ)
    → AreFresh t r w r' w'
    → (forked (open_output (some (r', w')) (open_input (some (r, w)) t))).talking w
      ≡ some input_write
unfolding forked open_output open_input parent_fds
talking-input_write t r w r' w' h =
    let (a, b, c, d, e, f) = h.apart in
    rw (==_ne w w' e, ==_ne w r (λ k. a (sym k)), ==_ne w r' d, ==_refl w)

-- What a call comes to whose own calls succeed: the program has the pipes as its input and output,
-- the parent holds the end `w` of the body's pipe until it has read all the output, and it closes
-- what it has opened.
pub record Serves (t : Table) (w : ℕ) (s : Tables) : Type 0 where
  pub stdin : s.child 0 ≡ some input_read
  pub stdout : s.child 1 ≡ some output_write
  pub holds : s.talking w ≡ some input_write
  pub restored : (fd : ℕ) → s.last fd ≡ t fd

-- If both calls of `pipe` give fresh descriptors and `fork` succeeds, the program reads from the one
-- pipe and writes to the other, and afterwards the server has the descriptors that it had before.
-- The parent closes its end of the first pipe only behind the loop that reads the output.
pub exec_cgi_fds-Serves :
    (t : Table) (r w r' w' : ℕ)
    → AreFresh t r w r' w'
    → (s : Tables) × (exec_cgi_fds (some (r, w)) (some (r', w')) true t ≡ done s) × Serves t w s
unfolding exec_cgi_fds
exec_cgi_fds-Serves t r w r' w' h = (
  _,
  refl,
  record {
    stdin = (child-ends t r w r' w' h).0;
    stdout = (child-ends t r w r' w' h).1;
    holds = talking-input_write t r w r' w' h;
    restored = last-restored t r w r' w' h;
  },
)
