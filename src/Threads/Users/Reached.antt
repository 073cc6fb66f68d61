-- ===== src/Threads/Users/Reached.antt =====
-- server/server_http.h: the roster in every state that the threads come to.
use face_perception.Common.{
  ℕ, ◌≡◌, refl, sym, subst, ap, ◌∙◌, inl, inr, Bytes, List, [], ◌∷◌, ◌++◌, append_assoc, append-nil,
  All, All-append,
}
use face_perception.Outcome.{Outcome, done}
use face_perception.Attendance.Roster.{Calendar}
use face_perception.Attendance.Roster.Lookup.{User}
use face_perception.Attendance.Roster.History.{sender}
use face_perception.Threads.Places.{Pc}
use face_perception.Threads.Vector.{Shared}
use face_perception.Threads.Steps.{System, callers, at_start, picks, Reach, start, later}
use face_perception.Threads.Users.Records.{users}
use face_perception.Threads.Users.Moves.{Intends, Grows, Move-Intends}

-- One of the calls is for a query that names `u`.
pub data IsCaller (u : User) : List (Bytes × ℕ) → Type 0 where
  here :
      {query : Bytes} {now : ℕ} {calls : List (Bytes × ℕ)}
      → sender query ≡ done u
      → IsCaller u ((query, now) ∷ calls)
  there :
      {call : Bytes × ℕ} {calls : List (Bytes × ℕ)} → IsCaller u calls → IsCaller u (call ∷ calls)

-- Each thread is about the user whom its query names.
abbrev Matches : List (Bytes × ℕ) → List Pc → Type 0
Matches [] [] = Unit {0}
Matches ((query, now) ∷ calls) (pc ∷ pcs) = Intends (sender query) pc × Matches calls pcs
Matches _ _ = ⊥

-- The call of a thread among others.
record Call (calls : List (Bytes × ℕ)) (before : List Pc) (pc : Pc) (after : List Pc) : Type 0 where
  query : Bytes
  intends : Intends (sender query) pc
  is_caller : (u : User) → sender query ≡ done u → IsCaller u calls
  goes_on : (pc' : Pc) → Intends (sender query) pc' → Matches calls (before ++ pc' ∷ after)

Matches-Call :
    (calls : List (Bytes × ℕ)) (before after : List Pc) (pc : Pc)
    → Matches calls (before ++ pc ∷ after)
    → Call calls before pc after
Matches-Call [] [] after pc h = absurd h
Matches-Call [] (p ∷ before) after pc h = absurd h
Matches-Call ((query, now) ∷ calls) [] after pc h = record {
  query = query;
  intends = h.0;
  is_caller = λ u e. here e;
  goes_on = λ pc' i. (i, h.1);
}
Matches-Call ((query, now) ∷ calls) (p ∷ before) after pc h =
    let k = Matches-Call calls before after pc h.1 in
    record {
      query = k.query;
      intends = k.intends;
      is_caller = λ u e. there (k.is_caller u e);
      goes_on = λ pc' i. (h.0, k.goes_on pc' i);
    }

Matches-callers : (calls : List (Bytes × ℕ)) → Matches calls (callers calls)
Matches-callers [] = tt
Matches-callers ((query, now) ∷ calls) = (refl, Matches-callers calls)

module _ {c : Calendar} where
  -- The users of the roster are those of before, in their order, and callers behind them.
  pub record Keeps (m : Shared c) (calls : List (Bytes × ℕ)) (m' : Shared c) : Type 0 where
    pub more : List User
    pub callers : All (λ u. IsCaller u calls) more
    pub added : users m'.roster.v ≡ users m.roster.v ++ more

  Keeps-Grows :
      {m m1 m2 : Shared c} {calls : List (Bytes × ℕ)} (o : Outcome User)
      → Keeps m calls m1
      → ((u : User) → o ≡ done u → IsCaller u calls)
      → Grows o m1 m2
      → Keeps m calls m2
  Keeps-Grows o k h (inl same) = record {
    more = k.more;
    callers = k.callers;
    added = same ∙ k.added;
  }
  Keeps-Grows {m} {calls} o k h (inr (u, e, g)) = record {
    more = k.more ++ u ∷ [];
    callers = All-append (λ w. IsCaller w calls) k.more (u ∷ []) k.callers (h u e, tt);
    added = g ∙ ap (λ us. us ++ u ∷ []) k.added ∙ append_assoc (users m.roster.v) k.more (u ∷ []);
  }

  Reach-Keeps :
      {m : Shared c} (calls : List (Bytes × ℕ)) {t : System c}
      → Reach (at_start m calls) t
      → Matches calls t.threads × Keeps m calls t.shared
  Reach-Keeps {m} calls start = (
    Matches-callers calls,
    record { more = []; callers = tt; added = sym (append-nil (users m.roster.v)) },
  )
  Reach-Keeps {m} calls (later {t} {u} r (picks before after {pc} {pc'} e e' move)) =
      let (matches, keeps) = Reach-Keeps calls r in
      let k = Matches-Call calls before after pc (subst (Matches calls) e matches) in
      let (intends, grows) = Move-Intends (sender k.query) move k.intends in
      (
        subst (Matches calls) (sym e') (k.goes_on pc' intends),
        Keeps-Grows (sender k.query) keeps k.is_caller grows,
      )

  -- However the threads are interleaved, no record is lost, moved or given to another user, and
  -- each new record is of a user whom the query of a thread names.
  pub records_stay :
      {m : Shared c} (calls : List (Bytes × ℕ)) {t : System c}
      → Reach (at_start m calls) t
      → Keeps m calls t.shared
  records_stay calls r = (Reach-Keeps calls r).1
