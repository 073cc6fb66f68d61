-- ===== src/Threads/Races/Freed.antt =====
-- server/server_http.h: a departure whose iterator another thread's arrival leaves without an array.
use face_perception.Common.{
  ℕ, ◌+◌, false, ◌≡◌, ◌≢◌, refl, Bytes, List, [], ◌∷◌, none, All, length, arith, ==_ne,
}
use face_perception.Outcome.{done, fault, out_of_bounds}
use face_perception.Attendance.Node.{UserNode, buynode}
use face_perception.Attendance.Show.{show}
use face_perception.Attendance.Roster.{Calendar}
use face_perception.Attendance.Roster.Lookup.{User, Lacks, StandsIn}
use face_perception.Attendance.Roster.Find.{IsNamed}
use face_perception.Attendance.Roster.History.{sender}
use face_perception.Threads.Places.{Pointer, Pc, outside, runs, finished, starts, leaves}
use face_perception.Threads.Vector.{Shared, push_back, element}
use face_perception.Threads.Vector.Laws.{behind, push_back-full}
use face_perception.Threads.Actions.{step}
use face_perception.Threads.Steps.{System, at_start, Reach}
use face_perception.Threads.Alone.{Does, ◌then◌, Run-Reach, Reach_trans}
use face_perception.Threads.Alone.Whole.{tests_new, arrived}
use face_perception.Threads.Alone.Table.{written}
use face_perception.Threads.Races.{looked_up, looks_up, known_up}
use face_perception.Threads.Races.Arrivals.{stores_whole}

module _ {c : Calendar} where
  -- A state that the threads come to, in which the first is about to use the iterator `it` into an
  -- array that is no longer the one of `v`, and the second has finished.
  pub record UsesFreed (s : System c) (text : Bytes) (it : Pointer) : Type 0 where
    pub last : System c
    pub reached : Reach s last
    pub threads : last.threads ≡ outside (runs (leaves text it)) ∷ outside (finished none) ∷ []
    pub moved : last.shared.block ≢ it.block
    pub fails : step (leaves text it) last.shared ≡ fault out_of_bounds

  freed-fails :
      (m : Shared c) (before : List UserNode) (text : Bytes) (w : UserNode)
      → length m.roster.v ≡ m.capacity
      → (out : Bytes)
      → step (leaves text (behind m before)) (written (push_back m w) out) ≡ fault out_of_bounds
  unfolding step element
  freed-fails m before text w full out =
      rw (push_back-full m w full, ==_ne m.block (m.block + 1) (omega arith))

  -- If a thread gets the query of a user who has a record, and another that of a new user while the
  -- array of `v` is full, they have an interleaving in which the second finishes, and the first is
  -- then about to write to the record of its user in the array that `push_back` has freed, which is
  -- an access out of bounds.
  pub freed_iterator :
      (m : Shared c) (query query' : Bytes) (now later : ℕ) (u w : User)
      {before after : List UserNode} {cur : UserNode}
      → sender query ≡ done u
      → sender query' ≡ done w
      → All IsNamed m.roster.v
      → StandsIn u m.roster.v before cur after
      → Lacks w m.roster.v
      → length m.roster.v ≡ m.capacity
      → UsesFreed
          (at_start m ((query, now) ∷ (query', later) ∷ []))
          (c.strftime (c.localtime now))
          (behind m before)
  freed_iterator m query query' now later u w {before} h h' named s l full =
      let user : UserNode = buynode w.name w.id in
      let text : Bytes = c.strftime (c.localtime now) in
      let text' : Bytes = c.strftime (c.localtime later) in
      let m1 : Shared c = record m { tm = c.localtime now } in
      let m2 : Shared c = looked_up m1 later in
      let new : Shared c = push_back m2 (arrived m2 user text') in
      let m3 : Shared c = written new (show new.roster) in
      let second : Does m1 (runs (starts query' later)) m3 (finished none) =
        looks_up m1 query' later w h' named l
        then tests_new m2 user text'
        then stores_whole m2 user text' in
      let waiting : Pc = outside (runs (leaves text (behind m before))) in
      let gone : Pc = outside (finished none) in
      record {
        last = record { shared = m3; locked = false; threads = waiting ∷ gone ∷ [] };
        reached =
            Reach_trans
              (Run-Reach [] (outside (runs (starts query' later)) ∷ [])
                (known_up m query now u h named s))
              (Run-Reach (waiting ∷ []) [] second);
        threads = refl;
        moved = omega (arith, push_back-full m2 (arrived m2 user text') full);
        fails = freed-fails m2 before text (arrived m2 user text') full (show new.roster);
      }
