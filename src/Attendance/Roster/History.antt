-- ===== src/Attendance/Roster/History.antt =====
-- Histories of calls of `send_vector`: each user's record depends on that user's own visits only,
-- and the time worked is a sum over them.
use face_perception.Common.{
  ℕ, ◌≡◌, subst, sym, ap, ◌∙◌, inl, inr, Bool, true, false, Bytes, List, [], ◌∷◌, Option, some,
  if◌then◌else◌, Bool-cases,
}
use face_perception.Outcome.{Outcome, done, fault, spins, ◌>>=◌, >>=-eq-done, done-injective}
use face_perception.Memory.{strlen}
use face_perception.Attendance.Node.{UserNode, buynode}
use face_perception.Attendance.Query.{get_string}
use face_perception.Attendance.Query.Laws.{get_string-IsText}
use face_perception.Attendance.Roster.{Calendar, Roster, send_vector}
use face_perception.Attendance.Roster.Lookup.{User, is_of, lookup, is_of_iff, is_of-other}
use face_perception.Attendance.Roster.Visits.{after_visit, Updates, record_visit-Updates}
use face_perception.Attendance.Roster.Invariant.{IsValid, send_vector-IsValid}

-- Whom a query names.
unfoldable pub sender : Bytes → Outcome User
sender query = do
  len ← strlen query
  user ← get_string query len
  done (record { name = user.0; id = user.1 })

abbrev pub is_from : User → Outcome User → Bool
is_from j (done u) = is_of j (buynode u.name u.id)
is_from j (fault _) = false
is_from j spins = false

-- The times of the queries that name `j`.
abbrev pub own_times : User → List (Bytes × ℕ) → List ℕ
own_times j [] = []
own_times j ((query, now) ∷ rest) =
    if is_from j (sender query) then now ∷ own_times j rest else own_times j rest

module _ (c : Calendar) where
  -- The calls for a list of queries with their times, oldest first.
  unfoldable pub run : List (Bytes × ℕ) → Roster → Outcome Roster
  run [] r = done r
  run ((query, now) ∷ rest) r = do out ← send_vector c query now r; run rest out.0

  -- The visits of one user.
  abbrev pub after_visits : User → List ℕ → Option UserNode → Outcome (Option UserNode)
  after_visits j [] n = done n
  after_visits j (t ∷ ts) n = do m ← after_visit c j (c.localtime t) n; after_visits j ts (some m)

  -- One call, as the user `j` sees it.
  own_step :
      (j u : User) (time : ℕ) (ts : List ℕ) (v w : List UserNode) (res : Outcome (Option UserNode))
      → Updates c u (c.localtime time) v w
      → after_visits j ts (lookup j w) ≡ res
      → after_visits j (if is_of j (buynode u.name u.id) then time ∷ ts else ts) (lookup j v) ≡ res
  own_step j u time ts v w res up rest = elim (Bool-cases (is_of j (buynode u.name u.id))) [
    | inl mine ↦
        let e : u ≡ j = (is_of_iff j (buynode u.name u.id)).0 mine in
        let hit : is_of j up.new ≡ true = (is_of_iff j up.new).1 (up.same_user ∙ e) in
        let visited : after_visit c j (c.localtime time) (lookup j v) ≡ done up.new =
          subst (λ x. after_visit c x (c.localtime time) (lookup x v) ≡ done up.new) e up.visited in
        rw (mine, visited) (ap (after_visits j ts) (sym (up.looks_up j ∙ rw hit)) ∙ rest)
    | inr other ↦
        let miss : is_of j up.new ≡ false =
          is_of-other j up.new (buynode u.name u.id) up.same_user ∙ other in
        rw other (ap (after_visits j ts) (sym (up.looks_up j ∙ rw miss)) ∙ rest)
  ]

  sender-done :
      (query : Bytes) {len : ℕ} {u : Bytes × Bytes}
      → strlen query ≡ done len
      → get_string query len ≡ done u
      → sender query ≡ done (record { name = u.0; id = u.1 })
  unfolding sender
  sender-done query e e' = rw (e, e')

  send_vector-Updates :
      (query : Bytes) (now : ℕ) (r : Roster) {out : Roster × Option Bytes}
      → IsValid r
      → send_vector c query now r ≡ done out
      → (u : User) × (sender query ≡ done u) × Updates c u (c.localtime now) r.v out.0.v
  unfolding send_vector
  send_vector-Updates query now r v h =
      let (len, e, h1) = >>=-eq-done (strlen query) _ h in
      let (u, e', h2) = >>=-eq-done (get_string query len) _ h1 in
      (
        record { name = u.0; id = u.1 },
        sender-done query e e',
        record_visit-Updates c (record { name = u.0; id = u.1 }) (c.localtime now) r
            (get_string-IsText query len e') v.named h2,
      )

  -- After a history of calls that all return, the record of `j` is what the visits of `j` alone
  -- make of it.
  pub run-own_times :
      (j : User) (calls : List (Bytes × ℕ)) (r : Roster) {r' : Roster}
      → IsValid r
      → run calls r ≡ done r'
      → after_visits j (own_times j calls) (lookup j r.v) ≡ done (lookup j r'.v)
  unfolding run
  run-own_times j [] r v h = ap (λ (x : Roster). done (lookup j x.v)) (done-injective h)
  run-own_times j ((query, now) ∷ calls) r v h =
      let (out, e, later) = >>=-eq-done (send_vector c query now r) _ h in
      let (u, from, up) = send_vector-Updates query now r v e in
      let rest = run-own_times j calls out.0 (send_vector-IsValid c query now r v e) later in
      rw from (own_step j u now (own_times j calls) r.v out.0.v _ up rest)

  -- No call of the history breaks the roster.
  pub run-IsValid :
      (calls : List (Bytes × ℕ)) (r : Roster) {r' : Roster}
      → IsValid r
      → run calls r ≡ done r'
      → IsValid r'
  unfolding run
  run-IsValid [] r v h = subst IsValid (done-injective h) v
  run-IsValid ((query, now) ∷ calls) r v h =
      let (out, e, later) = >>=-eq-done (send_vector c query now r) _ h in
      run-IsValid calls out.0 (send_vector-IsValid c query now r v e) later
