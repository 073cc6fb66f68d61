-- ===== src/Threads/Races.antt =====
-- server/server_http.h: what two threads of new users come to between `find_id` and `push_back`.
pub mod Arrivals
pub mod Clock
pub mod Departure
pub mod Freed
use face_perception.Common.{
  ℕ, ◌≡◌, refl, subst, sym, ap, ◌∙◌, Bytes, List, [], ◌∷◌, Option, none, some, All,
}
use face_perception.Outcome.{done, >>=-eq-done, done-injective}
use face_perception.Memory.{strlen}
use face_perception.Memory.Laws.{IsText}
use face_perception.Attendance.Node.{UserNode, buynode}
use face_perception.Attendance.Query.{get_string}
use face_perception.Attendance.Query.Laws.{get_string-IsText}
use face_perception.Attendance.Roster.{Calendar, Roster, Iterator, find_loop}
use face_perception.Attendance.Roster.Lookup.{User, Lacks, StandsIn}
use face_perception.Attendance.Roster.Find.{IsNamed, find_loop-Lacks, find_loop-stands}
use face_perception.Attendance.Roster.History.{sender}
use face_perception.Threads.Places.{runs, waits, starts, counts, tests, leaves, finds}
use face_perception.Threads.Vector.{Shared, begin, end}
use face_perception.Threads.Vector.Laws.{behind}
use face_perception.Threads.Alone.{Does, ◌then◌}
use face_perception.Threads.Alone.Query.{reads_query, reads_time}
use face_perception.Threads.Alone.Find.{Found, hits, misses, find_loop-Found}
use face_perception.Threads.Alone.Whole.{counted, counts_new}

-- The parts of a query that names `u`.
pub record Names (query : Bytes) (u : User) : Type 0 where
  pub len : ℕ
  pub measured : strlen query ≡ done len
  pub got : get_string query len ≡ done (u.name, u.id)

pub sender-Names : (query : Bytes) (u : User) → sender query ≡ done u → Names query u
unfolding sender
sender-Names query u h =
    let (len, a, h1) = >>=-eq-done (strlen query) _ h in
    let (got, b, h2) = >>=-eq-done (get_string query len) _ h1 in
    subst (Names query) (done-injective h2) (record { len = len; measured = a; got = b })

module _ {c : Calendar} where
  -- The state once a thread that reads `now` off the clock has looked a new user up.
  abbrev pub looked_up : Shared c → ℕ → Shared c
  looked_up m now = counted (record m { tm = c.localtime now })

  misses-counts :
      {m : Shared c} {user : UserNode} {text : Bytes} {before : List UserNode}
      → Found m user text before none
      → Does m (runs (finds user text (behind m before))) m (waits (counts user text))
  misses-counts (misses r) = r

  -- A new user up to the test behind `find_id`.
  pub looks_up :
      (m : Shared c) (query : Bytes) (now : ℕ) (u : User)
      → sender query ≡ done u
      → All IsNamed m.roster.v
      → Lacks u m.roster.v
      → let user = buynode u.name u.id in
        let text = c.strftime (c.localtime now) in
        Does m (runs (starts query now)) (looked_up m now) (runs (tests user text (end m)))
  looks_up m query now u h named l =
      let n = sender-Names query u h in
      let m1 : Shared c = record m { tm = c.localtime now } in
      let user = buynode u.name u.id in
      let text = c.strftime (c.localtime now) in
      let missing =
        find_loop-Lacks [] m.roster.v user (get_string-IsText query n.len n.got) named l in
      reads_query m query now n.measured n.got
      then reads_time m u.name u.id now
      then misses-counts (find_loop-Found m1 user text [] m.roster.v refl missing)
      then counts_new m1 user text

  hits-leaves :
      {m : Shared c} {user : UserNode} {text : Bytes} {before : List UserNode} {it : Iterator}
      → Found m user text before (some it)
      → Does m
          (runs (finds user text (behind m before)))
          m
          (runs (leaves text (behind m it.before)))
  hits-leaves (hits e r) = r

  -- A user who has a record, up to the first statement on the record.
  pub known_up :
      (m : Shared c) (query : Bytes) (now : ℕ) (u : User) {before after : List UserNode}
      {cur : UserNode}
      → sender query ≡ done u
      → All IsNamed m.roster.v
      → StandsIn u m.roster.v before cur after
      → Does m
          (runs (starts query now))
          (record m { tm = c.localtime now })
          (runs (leaves (c.strftime (c.localtime now)) (behind m before)))
  known_up m query now u {before} {after} {cur} h named s =
      let n = sender-Names query u h in
      let m1 : Shared c = record m { tm = c.localtime now } in
      let user : UserNode = buynode u.name u.id in
      let text : Bytes = c.strftime (c.localtime now) in
      let e = s.splits in
      let found =
        find_loop-stands [] before cur after user (get_string-IsText query n.len n.got)
          (rw e at named) s.lacks s.is_cur in
      let found_at =
        find_loop-Found m1 user text [] m.roster.v refl (ap (λ v. find_loop [] v user) e ∙ found) in
      reads_query m query now n.measured n.got
      then reads_time m u.name u.id now
      then hits-leaves found_at
