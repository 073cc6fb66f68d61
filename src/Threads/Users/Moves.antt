-- ===== src/Threads/Users/Moves.antt =====
-- server/server_http.h: every step of a thread goes on with the user whom its query names, and adds
-- no record but one of that user.
use face_perception.Common.{
  ℕ, Bool, true, false, ◌≡◌, refl, sym, ◌∙◌, ◌⊎◌, inl, inr, Bool-cases, Bytes, [], ◌∷◌, ◌++◌,
  Option, arith, ltb,
}
use face_perception.Outcome.{Outcome, done, Ensures, Ensures->>=, Ensures-done}
use face_perception.Memory.{strlen, c_text}
use face_perception.Attendance.Node.{UserNode}
use face_perception.Attendance.Query.{skip_key}
use face_perception.Common.Int.{pos, leb_ℤ, ◌+ℤ◌}
use face_perception.Attendance.WorkTime.{to_int, difftime, carry_minute}
use face_perception.Attendance.WorkTime.Laws.{carry_minute-SameVisit}
use face_perception.Attendance.Report.{field_text}
use face_perception.Attendance.Roster.{Calendar, same_user}
use face_perception.Attendance.Roster.Lookup.{User, user_of}
use face_perception.Attendance.Roster.History.{sender}
use face_perception.Threads.Places.{
  Pointer, Section, copies_name, skips_key, reads_clock, counts, signs_in, totals, appends, inserts,
  Point, starts, named, numbered, begins, finds, ends, tests, leaves, leaves_at, writes, reports,
  shows, shows_row, Free, runs, waits, finished, Pc, outside, inside, unlocks,
}
use face_perception.Threads.Vector.{Shared, element, at_end}
use face_perception.Threads.Actions.{
  new_name, end_name, copy_name, field, find_next, is_found, show_next, step, enter,
}
use face_perception.Threads.Steps.{Move, acts, lock, unlock}
use face_perception.Threads.Users.Parts.{
  from_number, from_rest, from_copied, from_tmp, sender-parts,
}
use face_perception.Threads.Users.Records.{users, users-store_at, users-push_back}

-- `o` is what remains to be found out at a place, of the user whom the thread is about; behind the
-- test for a user it no longer matters.
abbrev IntendsAt : Outcome User → Point → Type 0
IntendsAt o (starts query now) = sender query ≡ o
IntendsAt o (named tmp i rest now) = from_copied (tmp, i, rest) ≡ o
IntendsAt o (numbered name number now) = from_number name number ≡ o
IntendsAt o (begins user text) = done (user_of user) ≡ o
IntendsAt o (finds user text it) = done (user_of user) ≡ o
IntendsAt o (ends user text) = done (user_of user) ≡ o
IntendsAt o (tests user text it) = done (user_of user) ≡ o
IntendsAt o _ = Unit {0}

abbrev IntendsIn : Outcome User → Section → Type 0
IntendsIn o (copies_name tmp query now) = from_tmp query tmp ≡ o
IntendsIn o (skips_key name rest now) = from_rest name rest ≡ o
IntendsIn o (reads_clock name id now) = done (record { name = name; id = id }) ≡ o
IntendsIn o (counts user text) = done (user_of user) ≡ o
IntendsIn o (signs_in user text) = done (user_of user) ≡ o
IntendsIn o _ = Unit {0}

abbrev IntendsFree : Outcome User → Free → Type 0
IntendsFree o (runs p) = IntendsAt o p
IntendsFree o (waits k) = IntendsIn o k
IntendsFree o (finished report) = Unit {0}

abbrev pub Intends : Outcome User → Pc → Type 0
Intends o (outside f) = IntendsFree o f
Intends o (inside k) = IntendsIn o k
Intends o (unlocks p) = IntendsAt o p

is_found-Intends :
    (o : Outcome User) (user : UserNode) (text : Bytes) (it : Pointer) (b : Bool)
    → done (user_of user) ≡ o
    → IntendsFree o (is_found user text it b)
is_found-Intends o user text it true h = h
is_found-Intends o user text it false h = tt

module _ {c : Calendar} where
  abbrev Same : Outcome User → Shared c → Shared c × Free → Type 0
  Same o m (m', f) = IntendsFree o f × (users m'.roster.v ≡ users m.roster.v)

  abbrev pub Grows : Outcome User → Shared c → Shared c → Type 0
  Grows o m m' =
      (users m'.roster.v ≡ users m.roster.v)
      ⊎ ((u : User) × (o ≡ done u) × (users m'.roster.v ≡ users m.roster.v ++ u ∷ []))

  starts-Same :
      (o : Outcome User) (query : Bytes) (now : ℕ) (m : Shared c)
      → sender query ≡ o
      → Ensures (Same o m) (step (starts query now) m)
  unfolding step
  starts-Same o query now m h = Ensures->>= (Same o m) (strlen query) _ λ len e.
      Ensures->>= (Same o m) (new_name len) _ λ tmp e'.
        (let parts = sender-parts query in let there = rw (e, e') at parts in sym there ∙ h, refl)

  find_next-Same :
      (o : Outcome User) (m : Shared c) (user : UserNode) (text : Bytes) (it : Pointer) (b : Bool)
      → done (user_of user) ≡ o
      → Ensures (Same o m) (find_next m user text it b)
  find_next-Same o m user text it true h = (h, refl)
  find_next-Same o m user text it false h = Ensures->>= (Same o m) (element m it) _ λ cur e.
      Ensures->>= (Same o m) (same_user cur user) _ λ same e'. elim (Bool-cases same) [
        | inl hit ↦ rw hit (h, refl)
        | inr miss ↦ rw miss (h, refl)
      ]

  show_next-Same :
      (o : Outcome User) (m : Shared c) (report : Option Bytes) (it : Pointer) (b : Bool)
      → Ensures (Same o m) (show_next m report it b)
  show_next-Same o m report it true = (tt, refl)
  show_next-Same o m report it false = Ensures->>= (Same o m) (element m it) _ λ cur e. (tt, refl)

  works-Same :
      (o : Outcome User) (it : Pointer) (m : Shared c)
      → Ensures (Same o m) (step (Point.works it) m)
  unfolding step
  works-Same o it m = Ensures->>= (Same o m) (element m it) _ λ prev e.
      Ensures->>= (Same o m) (to_int (prev.sec +ℤ difftime prev.end_time prev.start_time)) _
        λ sec e'. (tt, users-store_at m it prev _ e refl)

  carries-Same :
      (o : Outcome User) (it : Pointer) (m : Shared c)
      → Ensures (Same o m) (step (Point.carries it) m)
  unfolding step
  carries-Same o it m = Ensures->>= (Same o m) (element m it) _ λ cur e.
      elim (Bool-cases (leb_ℤ (pos 60) cur.sec)) [
        | inl more ↦
            let v = carry_minute-SameVisit cur in
            rw more (tt, users-store_at m it cur (carry_minute cur) e (ground (arith, v)))
        | inr last ↦ rw last (tt, refl)
      ]

  step-Same :
      (o : Outcome User) (p : Point) (m : Shared c) → IntendsAt o p → Ensures (Same o m) (step p m)
  unfolding step
  step-Same o (starts query now) m h = starts-Same o query now m h
  step-Same o (named tmp i rest now) m h =
      Ensures->>= (Same o m) (end_name tmp i) _ λ name e. (rw e at h, refl)
  step-Same o (numbered name number now) m h =
      Ensures->>= (Same o m) (c_text number) _ λ id e. (rw e at h, refl)
  step-Same o (begins user text) m h = (h, refl)
  step-Same o (finds user text it) m h =
      Ensures->>= (Same o m) (at_end m it) _ λ b e. find_next-Same o m user text it b h
  step-Same o (ends user text) m h = (h, refl)
  step-Same o (tests user text it) m h =
      Ensures->>= (Same o m) (at_end m it) _ λ b e. (is_found-Intends o user text it b h, refl)
  step-Same o (leaves text it) m h =
      Ensures->>= (Same o m) (element m it) _ λ prev e. (tt, users-store_at m it prev _ e refl)
  step-Same o (leaves_at text it) m h =
      Ensures->>= (Same o m) (element m it) _ λ prev e. (tt, users-store_at m it prev _ e refl)
  step-Same o (Point.works it) m h = works-Same o it m
  step-Same o (Point.carries it) m h = carries-Same o it m
  step-Same o (writes n it total time) m h = Ensures->>= (Same o m) (element m it) _ λ cur e.
      Ensures->>= (Same o m) (field n cur) _
        λ key e'. Ensures->>= (Same o m) (field_text key) _ λ buf e''. (tt, refl)
  step-Same o (reports report) m h = (tt, refl)
  step-Same o (shows report) m h = (tt, refl)
  step-Same o (shows_row report it) m h =
      Ensures->>= (Same o m) (at_end m it) _ λ b e. show_next-Same o m report it b

  -- A section stores a record of the thread's user, or changes no user.
  abbrev Adds : Outcome User → Shared c → Shared c × Point → Type 0
  Adds o m (m', p) = IntendsAt o p × Grows o m m'

  enter-Adds :
      (o : Outcome User) (k : Section) (m : Shared c)
      → IntendsIn o k
      → Ensures (Adds o m) (enter k m)
  unfolding enter
  enter-Adds o (copies_name tmp query now) m h =
      Ensures->>= (Adds o m) (copy_name tmp query) _ λ copied e. (rw e at h, inl refl)
  enter-Adds o (skips_key name rest now) m h =
      Ensures->>= (Adds o m) (skip_key rest) _ λ number e. (rw e at h, inl refl)
  enter-Adds o (reads_clock name id now) m h = (h, inl refl)
  enter-Adds o (counts user text) m h = (h, inl refl)
  enter-Adds o (signs_in user text) m h = (tt, inr (user_of user, sym h, users-push_back m _))
  enter-Adds o (totals it) m h = Ensures->>= (Adds o m) (element m it) _ λ prev e. (tt, inl refl)
  enter-Adds o (appends n it total time buf) m h = elim (Bool-cases (ltb n 3)) [
    | inl more ↦ rw more (tt, inl refl)
    | inr last ↦ rw last (tt, inl refl)
  ]
  enter-Adds o (inserts report) m h = (tt, inl refl)

  pub Move-Intends :
      {m m' : Shared c} {b b' : Bool} {pc pc' : Pc} (o : Outcome User)
      → Move m b pc m' b' pc'
      → Intends o pc
      → Intends o pc' × Grows o m m'
  Move-Intends {m} o (acts {p} e) h =
      let (intends, same) = Ensures-done (Same o m) (step p m) (step-Same o p m h) e in
      (intends, inl same)
  Move-Intends o lock h = (h, inl refl)
  Move-Intends {m} o (Move.works {k} e) h =
      Ensures-done (Adds o m) (enter k m) (enter-Adds o k m h) e
  Move-Intends o unlock h = (h, inl refl)
