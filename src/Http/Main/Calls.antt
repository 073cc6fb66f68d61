-- ===== src/Http/Main/Calls.antt =====
-- Which call of `send_vector` a connection to server_http comes to, by its request alone.
use face_perception.Common.{
  ℕ, ◌≡◌, refl, ap, sym, subst, ◌∙◌, inl, inr, true, Bytes, Option, some, none, List, [], ◌∷◌, ◌++◌,
  Bool-cases, if◌then◌else◌,
}
use face_perception.Common.Int.{ℤ}
use face_perception.Outcome.{Outcome, done, ◌>>=◌, >>=-eq-done, done-injective}
use face_perception.Memory.{zeros}
use face_perception.Attendance.Roster.{Calendar, Roster, send_vector}
use face_perception.Attendance.Roster.History.{run}
use face_perception.Http.Line.{get_line}
use face_perception.Http.Request.{Request, new_request, get_path_method_query}
use face_perception.Http.World.{size, Os, World}
use face_perception.Http.Accept.{exec_post, handle, accept}
use face_perception.Http.Main.{Client, accept_request, serve}
use face_perception.Http.Main.Keeps.{exec_get-Keeps, exec_cgi-Keeps}

-- A request for a program is a visit, with the query of its first line.
abbrev visit_if : Request → ℕ → List (Bytes × ℕ)
visit_if q now = if q.cgi then (q.query, now) ∷ [] else []

unfoldable pub visits_of : ℕ → Client → Outcome (List (Bytes × ℕ))
visits_of fuel k = do
  line ← get_line fuel (zeros size) size k.input
  q ← get_path_method_query line.1 new_request
  done (visit_if q k.now)

-- The visits of the connections that `main` serves: up to a call of `accept` that fails, or a thread
-- that cannot be created.
unfoldable pub all_visits : ℕ → List (Option Client) → Outcome (List (Bytes × ℕ))
all_visits fuel [] = done []
all_visits fuel (none ∷ clients) = done []
all_visits fuel (some k ∷ clients) =
    let all = (do
      visits ← visits_of fuel k
      others ← all_visits fuel clients
      done (visits ++ others)) in
    if k.created then all else done []

all_visits-created :
    (fuel : ℕ) (k : Client) (clients : List (Option Client)) {visits others : List (Bytes × ℕ)}
    → k.created ≡ true
    → visits_of fuel k ≡ done visits
    → all_visits fuel clients ≡ done others
    → all_visits fuel (some k ∷ clients) ≡ done (visits ++ others)
unfolding all_visits
all_visits-created fuel k clients e a b = rw (a, b, e)

module _ (c : Calendar) (os : Os) (fuel ch : ℕ) where
  handle-visit :
      (now : ℕ) (q : Request) (w w' : World)
      → handle c os fuel ch now q w ≡ done w'
      → run c (visit_if q now) w.roster ≡ done w'.roster
  unfolding handle exec_post run
  handle-visit now q w w' h = elim (Bool-cases q.cgi) [
    | inl program ↦
        let (out, sent, later) =
          >>=-eq-done (send_vector c q.query now w.roster) _ (rw program at h) in
        let same =
          exec_cgi-Keeps os fuel ch q.path q.method q.query (record w { roster = out.0 }) w'
            later in
        rw (program, sent, same)
    | inr file ↦ rw (file, exec_get-Keeps os fuel q.path w w' (rw file at h))
  ]

  -- What a connection does to the roster, if its thread returns.
  record Visits (k : Client) (r r' : Roster) : Type 0 where
    visits : List (Bytes × ℕ)
    read : visits_of fuel k ≡ done visits
    ran : run c visits r ≡ done r'

  accept_request-Visits :
      (k : Client) (r : Roster) {r' : Roster}
      → accept_request c os fuel ch k r ≡ done r'
      → Visits k r r'
  unfolding accept_request accept visits_of
  accept_request-Visits k r h =
      let w : World = record { input = k.input; trace = []; roster = r } in
      let (v, accepted, last) = >>=-eq-done (accept c os fuel ch k.now w) _ h in
      let (line, a, h1) = >>=-eq-done (get_line fuel (zeros size) size k.input) _ accepted in
      let (q, b, h2) = >>=-eq-done (get_path_method_query line.1 new_request) _ h1 in
      let (u, handled, h3) =
        >>=-eq-done (handle c os fuel ch k.now q (record w { input = line.2 })) _ h2 in
      let same : v.roster ≡ u.roster = ap (λ (x : World). x.roster) (sym (done-injective h3)) in
      record {
        visits = visit_if q k.now;
        read = rw (a, b);
        ran =
            subst (λ x. run c (visit_if q k.now) r ≡ done x) (sym same ∙ done-injective last)
              (handle-visit k.now q (record w { input = line.2 }) u handled);
      }

  run-append :
      (xs ys : List (Bytes × ℕ)) (r : Roster) {m s : Roster}
      → run c xs r ≡ done m
      → run c ys m ≡ done s
      → run c (xs ++ ys) r ≡ done s
  unfolding run
  run-append [] ys r {m} {s} h k = subst (λ x. run c ys x ≡ done s) (sym (done-injective h)) k
  run-append ((query, now) ∷ xs) ys r h k =
      let (out, e, later) = >>=-eq-done (send_vector c query now r) _ h in
      rw e (run-append xs ys out.0 later k)

  -- What a run of the server does to the roster.
  pub record Served (clients : List (Option Client)) (r r' : Roster) : Type 0 where
    pub visits : List (Bytes × ℕ)
    pub read : all_visits fuel clients ≡ done visits
    pub ran : run c visits r ≡ done r'

  -- If the threads of `main` return one after another, the roster is what the visits that the
  -- requests ask for make of it, in the order of the connections.
  pub serve-Served :
      (clients : List (Option Client)) (r : Roster) {r' : Roster} {status : Option ℤ}
      → serve c os fuel ch clients r ≡ done (r', status)
      → Served clients r r'
  unfolding serve run all_visits accept_request
  serve-Served [] r h = record {
    visits = [];
    read = refl;
    ran = ap (λ x. done x.0) (done-injective h);
  }
  serve-Served (none ∷ clients) r h = record {
    visits = [];
    read = refl;
    ran = ap (λ x. done x.0) (done-injective h);
  }
  serve-Served (some k ∷ clients) r {r'} h = elim (Bool-cases k.created) [
    | inl created ↦
        let (m, accepted, later) =
          >>=-eq-done (accept_request c os fuel ch k r) _ (rw created at h) in
        let one = accept_request-Visits k r accepted in
        let others = serve-Served clients m later in
        record {
          visits = one.visits ++ others.visits;
          read = all_visits-created fuel k clients created one.read others.read;
          ran = run-append one.visits others.visits r one.ran others.ran;
        }
    | inr failed ↦ record {
      visits = [];
      read = rw failed;
      ran = ap (λ x. done x.0) (done-injective (rw failed at h));
    }
  ]
