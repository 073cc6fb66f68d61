-- ===== src/Http/Main/Laws.antt =====
-- What a run of the server does to the roster.
use face_perception.Common.{
  ℕ, ◌≤◌, ◌≡◌, refl, ap, sym, subst, ◌∙◌, ◌⊎◌, inl, inr, false, Bytes, Option, some, none, List, [],
  ◌∷◌, arith, Bool-cases, length,
}
use face_perception.Common.Int.{ℤ, negsuc}
use face_perception.Outcome.{done, >>=-eq-done, done-injective}
use face_perception.Memory.{zeros}
use face_perception.Net.{Sockets, to_port}
use face_perception.Attendance.Roster.{Calendar, Roster, new_roster, send_vector}
use face_perception.Attendance.Roster.Invariant.{IsValid, new_roster-IsValid}
use face_perception.Attendance.Roster.History.{run, run-IsValid}
use face_perception.Http.Line.{get_line}
use face_perception.Http.Request.{Request, new_request, get_path_method_query}
use face_perception.Http.World.{size, Os, World}
use face_perception.Http.Cgi.{atoi}
use face_perception.Http.Accept.{exec_post, handle, accept}
use face_perception.Http.Main.{Client, get_sock, accept_request, serve, start, main}
use face_perception.Http.Main.Keeps.{exec_get-Keeps, exec_cgi-Keeps}

-- The roster is left alone, or one call of `send_vector` is made.
abbrev Recorded : Calendar → ℕ → Roster → Roster → Type 0
Recorded c now r r' =
    (r' ≡ r)
    ⊎ ((query : Bytes) × (out : Roster × Option Bytes) × (send_vector c query now r ≡ done out)
        × (r' ≡ out.0))

module _ (c : Calendar) (os : Os) (fuel ch : ℕ) where
  handle-Recorded :
      (now : ℕ) (q : Request) (w w' : World)
      → handle c os fuel ch now q w ≡ done w'
      → Recorded c now w.roster w'.roster
  unfolding handle exec_post
  handle-Recorded now q w w' h = elim (Bool-cases q.cgi) [
    | inl program ↦
        let (out, sent, later) =
          >>=-eq-done (send_vector c q.query now w.roster) _ (rw program at h) in
        inr (
          q.query,
          out,
          sent,
          exec_cgi-Keeps os fuel ch q.path q.method q.query (record w { roster = out.0 }) w' later,
        )
    | inr file ↦ inl (exec_get-Keeps os fuel q.path w w' (rw file at h))
  ]

  accept_request-Recorded :
      (k : Client) (r : Roster) {r' : Roster}
      → accept_request c os fuel ch k r ≡ done r'
      → Recorded c k.now r r'
  unfolding accept_request accept
  accept_request-Recorded k r h =
      let w : World = record { input = k.input; trace = []; roster = r } in
      let (v, accepted, last) = >>=-eq-done (accept c os fuel ch k.now w) _ h in
      let (line, _, h1) = >>=-eq-done (get_line fuel (zeros size) size k.input) _ accepted in
      let (q, _, h2) = >>=-eq-done (get_path_method_query line.1 new_request) _ h1 in
      let (u, handled, h3) =
        >>=-eq-done (handle c os fuel ch k.now q (record w { input = line.2 })) _ h2 in
      let same : v.roster ≡ u.roster = ap (λ (x : World). x.roster) (sym (done-injective h3)) in
      subst (Recorded c k.now r) (sym same ∙ done-injective last)
        (handle-Recorded k.now q (record w { input = line.2 }) u handled)

  -- The calls of `send_vector` that the connections come to.
  abbrev Calls : List (Option Client) → Roster → Roster → Type 0
  Calls clients r r' =
      (calls : List (Bytes × ℕ)) × (length calls ≤ length clients) × (run c calls r ≡ done r')

  none-Calls : (clients : List (Option Client)) (r : Roster) → Calls clients r r
  unfolding run
  none-Calls clients r = ([], omega arith, refl)

  serve-Calls :
      (clients : List (Option Client)) (r : Roster) {r' : Roster} {status : Option ℤ}
      → serve c os fuel ch clients r ≡ done (r', status)
      → Calls clients r r'
  unfolding serve run accept_request
  serve-Calls [] r h = subst (Calls [] r) (ap (λ x. x.0) (done-injective h)) (none-Calls [] r)
  serve-Calls (none ∷ clients) r h =
      subst (Calls (none ∷ clients) r) (ap (λ x. x.0) (done-injective h))
        (none-Calls (none ∷ clients) r)
  serve-Calls (some k ∷ clients) r {r'} h = elim (Bool-cases k.created) [
    | inl created ↦
        let (m, accepted, later) =
          >>=-eq-done (accept_request c os fuel ch k r) _ (rw created at h) in
        let (calls, n, ran) = serve-Calls clients m later in
        elim (accept_request-Recorded k r accepted) [
          | inl same ↦ (calls, omega (arith, n), rw same at ran)
          | inr (query, out, sent, after) ↦
              ((query, k.now) ∷ calls, omega (arith, n), rw sent (rw after at ran))
        ]
    | inr failed ↦
        subst (Calls (some k ∷ clients) r) (ap (λ x. x.0) (done-injective (rw failed at h)))
          (none-Calls (some k ∷ clients) r)
  ]

  start-Calls :
      (sock : Option ℕ) (clients : List (Option Client)) {r : Roster} {status : Option ℤ}
      → start c os fuel ch sock clients ≡ done (r, status)
      → Calls clients new_roster r
  unfolding start
  start-Calls none clients h =
      subst (Calls clients new_roster) (ap (λ x. x.0) (done-injective h))
        (none-Calls clients new_roster)
  start-Calls (some sock) clients h = serve-Calls clients new_roster h

  main-Calls :
      (net : Sockets) (argv : List Bytes) (clients : List (Option Client)) {r : Roster}
      {status : Option ℤ}
      → main c os fuel ch net argv clients ≡ done (r, status)
      → Calls clients new_roster r
  unfolding main
  main-Calls net [] clients h =
      subst (Calls clients new_roster) (ap (λ x. x.0) (done-injective h))
        (none-Calls clients new_roster)
  main-Calls net (program ∷ []) clients h =
      subst (Calls clients new_roster) (ap (λ x. x.0) (done-injective h))
        (none-Calls clients new_roster)
  main-Calls net (program ∷ port ∷ more) clients h =
      start-Calls (get_sock net (atoi port)) clients h

  -- Whatever the clients send, if the threads return, the roster at the end is what a history of
  -- calls of `send_vector` makes of the empty one, with at most one call for each connection, and
  -- it is well formed. The threads run one after another.
  pub main-history :
      (net : Sockets) (argv : List Bytes) (clients : List (Option Client)) (r : Roster)
      (status : Option ℤ)
      → main c os fuel ch net argv clients ≡ done (r, status)
      → IsValid r × Calls clients new_roster r
  main-history net argv clients r status h =
      let calls = main-Calls net argv clients h in
      (run-IsValid c calls.0 new_roster new_roster-IsValid calls.2, calls)

-- No port is given, or one of `socket`, `bind` and `listen` fails.
abbrev pub CannotStart : Sockets → List Bytes → Type 0
CannotStart net [] = Unit {0}
CannotStart net (program ∷ []) = Unit {0}
CannotStart net (program ∷ port ∷ more) =
    (net.socket ≡ none) ⊎ ((net.bind (to_port (atoi port)) ≡ false) ⊎ (net.listen ≡ false))

get_sock-none :
    (net : Sockets) (port : ℤ)
    → (net.socket ≡ none) ⊎ ((net.bind (to_port port) ≡ false) ⊎ (net.listen ≡ false))
    → get_sock net port ≡ none
unfolding get_sock
get_sock-none net port h = ground arith

-- The server stops at once with -1 when it gets no port, or when one of `socket`, `bind` and
-- `listen` fails, whoever wants to connect.
pub main-CannotStart :
    (c : Calendar) (os : Os) (fuel ch : ℕ) (net : Sockets) (argv : List Bytes)
    (clients : List (Option Client))
    → CannotStart net argv
    → main c os fuel ch net argv clients ≡ done (new_roster, some (negsuc 0))
unfolding main start
main-CannotStart c os fuel ch net [] clients h = refl
main-CannotStart c os fuel ch net (program ∷ []) clients h = refl
main-CannotStart c os fuel ch net (program ∷ port ∷ more) clients h =
    rw (get_sock-none net (atoi port) h)
