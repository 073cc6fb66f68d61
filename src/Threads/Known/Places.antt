-- ===== src/Threads/Known/Places.antt =====
-- server/server_http.h: the places of a thread whose query names a user who has a record.
use face_perception.Common.{
  ℕ, zero, suc, ◌≢◌, ◌+◌, ◌<◌, ◌≤◌, ◌≡◌, inl, inr, Bool-cases, Bytes, List, [], ◌∷◌, arith, ltb,
  ◌==◌, length, drop,
}
use face_perception.Common.Int.{pos}
use face_perception.Outcome.{Outcome, done, ◌>>=◌, >>=-eq-done}
use face_perception.Attendance.Node.{UserNode}
use face_perception.Attendance.WorkTime.Laws.{IsCarried}
use face_perception.Attendance.Roster.Lookup.{User, user_of}
use face_perception.Attendance.Roster.Find.{IsNamed}
use face_perception.Attendance.Roster.History.{sender}
use face_perception.Threads.Places.{
  Pointer, Section, copies_name, skips_key, reads_clock, counts, signs_in, totals, appends, inserts,
  Point, starts, named, numbered, begins, finds, ends, tests, leaves, leaves_at, carries, writes,
  reports, shows, shows_row, Free, runs, waits, finished, Pc, outside, inside, unlocks,
}
use face_perception.Threads.Actions.{field, append_field}
use face_perception.Threads.Users.Parts.{from_number, from_rest, from_copied, from_tmp}
use face_perception.Threads.Known.Elements.{Mild, to_int-Mild, IsHere, IsTexts, Points}

-- What remains to be found out comes to one of the users.
pub record Names (us : List User) (o : Outcome User) : Type 0 where
  pub user : User
  pub found : o ≡ done user
  pub is_texts : IsTexts user
  pub is_here : IsHere user us

pub Names->>= :
    {A : Type 0} {us : List User} (o : Outcome A) (k : A → Outcome User)
    → Names us (o >>= k)
    → (a : A) × (o ≡ done a) × Names us (k a)
Names->>= o k n =
    let (a, e, h) = >>=-eq-done o k n.found in
    (a, e, record { user = n.user; found = h; is_texts = n.is_texts; is_here = n.is_here })

-- The user of `user` stands at `it` or behind it.
pub record IsAhead (us : List User) (b : ℕ) (user : UserNode) (it : Pointer) : Type 0 where
  pub same_block : it.block ≡ b
  pub is_named : IsNamed user
  pub is_ahead : IsHere (user_of user) (drop it.index us)

pub record IsWithin (us : List User) (b : ℕ) (it : Pointer) : Type 0 where
  pub same_block : it.block ≡ b
  pub index_le : it.index ≤ length us

-- The places of such a thread; the user is always found.
abbrev pub IsSafeAt : List User → ℕ → Point → Type 0
IsSafeAt us b (starts query now) = Names us (sender query)
IsSafeAt us b (named tmp i rest now) = Names us (from_copied (tmp, i, rest))
IsSafeAt us b (numbered name number now) = Names us (from_number name number)
IsSafeAt us b (begins user text) = IsNamed user × IsHere (user_of user) us
IsSafeAt us b (finds user text it) = IsAhead us b user it
IsSafeAt us b (ends user text) = ⊥
IsSafeAt us b (tests user text it) = Points us b it
IsSafeAt us b (leaves text it) = Points us b it
IsSafeAt us b (leaves_at text it) = Points us b it
IsSafeAt us b (Point.works it) = Points us b it
IsSafeAt us b (carries it) = Points us b it
IsSafeAt us b (writes n it total time) = Points us b it
IsSafeAt us b (reports report) = Unit {0}
IsSafeAt us b (shows report) = Unit {0}
IsSafeAt us b (shows_row report it) = IsWithin us b it

abbrev pub IsSafeIn : List User → ℕ → Section → Type 0
IsSafeIn us b (copies_name tmp query now) = Names us (from_tmp query tmp)
IsSafeIn us b (skips_key name rest now) = Names us (from_rest name rest)
IsSafeIn us b (reads_clock name id now) = Names us (done (record { name = name; id = id }))
IsSafeIn us b (counts user text) = ⊥
IsSafeIn us b (signs_in user text) = ⊥
IsSafeIn us b (totals it) = Points us b it
IsSafeIn us b (appends n it total time buf) = Points us b it
IsSafeIn us b (inserts report) = Unit {0}

abbrev pub IsSafeFree : List User → ℕ → Free → Type 0
IsSafeFree us b (runs p) = IsSafeAt us b p
IsSafeFree us b (waits k) = IsSafeIn us b k
IsSafeFree us b (finished report) = Unit {0}

abbrev pub IsSafe : List User → ℕ → Pc → Type 0
IsSafe us b (outside f) = IsSafeFree us b f
IsSafe us b (inside k) = IsSafeIn us b k
IsSafe us b (unlocks p) = IsSafeAt us b p

pub IsHere-lt : (u : User) (us : List User) (i : ℕ) → IsHere u (drop i us) → i < length us
IsHere-lt u [] zero h = absurd h
IsHere-lt u [] (suc i) h = absurd h
IsHere-lt u (w ∷ us) zero h = omega arith
IsHere-lt u (w ∷ us) (suc i) h = omega (arith, IsHere-lt u us i h)

pub past :
    (u : User) (us : List User) (i : ℕ) (w : User)
    → drop i us ≡ w ∷ drop (suc i) us
    → w ≢ u
    → IsHere u (drop i us)
    → IsHere u (drop (i + 1) us)
past u us i w e apart h =
    let k : i + 1 ≡ suc i = omega arith in
    rw k (elim (rw e at h) [ inl same ↦ absurd (apart same) | inr ahead ↦ ahead ])

pub field-Mild : (n : ℕ) (cur : UserNode) → Mild (λ _. Unit {0}) (field n cur)
unfolding field
field-Mild n cur = elim (Bool-cases (n == 0)) [
  | inl first ↦ rw first (to_int-Mild (pos cur.days))
  | inr other ↦ rw other (elim (Bool-cases (n == 1)) [
    | inl second ↦ rw second tt
    | inr more ↦
        rw more (elim (Bool-cases (n == 2)) [ inl third ↦ rw third tt | inr last ↦ rw last tt ])
  ])
]

-- A record that a user has left at some time.
pub still-IsCarried : (n m : UserNode) → m.min ≡ n.min → m.hour ≡ n.hour → IsCarried n → IsCarried m
still-IsCarried n m e f v = record { min_lt = rw e v.min_lt; hour_lt = rw f v.hour_lt }

pub append_field-IsSafeAt :
    {us : List User} {b : ℕ} (n : ℕ) (it : Pointer) (total time buf : Bytes)
    → Points us b it
    → IsSafeAt us b (append_field n it total time buf)
append_field-IsSafeAt n it total time buf h = elim (Bool-cases (ltb n 3)) [
  | inl more ↦ rw more h
  | inr last ↦ rw last tt
]
