-- ===== src/Threads/Races/Arrivals.antt =====
-- server/server_http.h: one new user in two threads is stored twice.
use face_perception.Common.{
  ℕ, ◌+◌, ◌%◌, ◌^◌, false, ◌≡◌, refl, sym, ap, ◌∙◌, true≢false, Bytes, List, [], ◌∷◌, ◌++◌, none,
  All, append_assoc,
}
use face_perception.Outcome.{done}
use face_perception.Attendance.Node.{UserNode, buynode}
use face_perception.Attendance.Show.{show}
use face_perception.Attendance.Roster.{Calendar, Roster}
use face_perception.Attendance.Roster.Lookup.{
  User, Lacks, IsDistinct, is_of, user_of, is_of-user_of,
}
use face_perception.Attendance.Roster.Find.{IsNamed}
use face_perception.Attendance.Roster.History.{sender}
use face_perception.Threads.Places.{Pc, outside, runs, waits, finished, starts, signs_in}
use face_perception.Threads.Vector.{Shared, push_back}
use face_perception.Threads.Vector.Laws.{push_back-roster, push_back-tm}
use face_perception.Threads.Steps.{at_start}
use face_perception.Threads.Mutex.{at_end}
use face_perception.Threads.Alone.{Does, ◌then◌, Run-Reach, Reach_trans}
use face_perception.Threads.Alone.Whole.{tests_new, stores_new, arrived}
use face_perception.Threads.Alone.Table.{written, shows_table}
use face_perception.Threads.Alone.Sequence.{Settles}
use face_perception.Threads.Races.{looked_up, looks_up}

module _ (c : Calendar) where
  -- The record that a thread makes which reads `now` off the clock, and whose `struct tm` another
  -- has filled at `later`.
  abbrev pub arrival : User → ℕ → ℕ → UserNode
  arrival u now later = record (buynode u.name u.id) {
    start_time = c.mktime (c.localtime later);
    arrive_time = c.strftime (c.localtime now);
  }

  abbrev pub stored_twice : Roster → User → ℕ → ℕ → Roster
  stored_twice r u now later = record {
    size = ((r.size + 1) % 2 ^ 32 + 1) % 2 ^ 32;
    v = r.v ++ arrival u later later ∷ arrival u now later ∷ [];
  }

Distinct-twice :
    (v : List UserNode) (a b : UserNode) → user_of a ≡ user_of b → ¬ IsDistinct (v ++ a ∷ b ∷ [])
Distinct-twice [] a b e h = true≢false (sym (is_of-user_of b) ∙ ap (λ u. is_of u b) (sym e) ∙ h.0.0)
Distinct-twice (n ∷ v) a b e h = Distinct-twice v a b e h.1

module _ {c : Calendar} where
  -- A new user whom a thread stores in the state `m`.
  pub stores_whole :
      (m : Shared c) (user : UserNode) (text : Bytes)
      → let new = push_back m (arrived m user text) in
        Does m (waits (signs_in user text)) (written new (show new.roster)) (finished none)
  stores_whole m user text =
      stores_new m user text then shows_table (push_back m (arrived m user text)) none

  -- Two threads whose queries name the same new user, and of which the second runs while the first
  -- waits for the mutex behind `find_id`.
  arrives_twice :
      (m : Shared c) (query query' : Bytes) (now later : ℕ) (u : User)
      → sender query ≡ done u
      → sender query' ≡ done u
      → All IsNamed m.roster.v
      → Lacks u m.roster.v
      → Settles
          (at_start m ((query, now) ∷ (query', later) ∷ []))
          (stored_twice c m.roster u now later)
  arrives_twice m query query' now later u h h' named l =
      let user = buynode u.name u.id in
      let text = c.strftime (c.localtime now) in
      let text' = c.strftime (c.localtime later) in
      let m1 : Shared c = looked_up m now in
      let m2 : Shared c = looked_up m1 later in
      let new2 : Shared c = push_back m2 (arrived m2 user text') in
      let m3 : Shared c = written new2 (show new2.roster) in
      let new4 : Shared c = push_back m3 (arrived m3 user text) in
      let m4 : Shared c = written new4 (show new4.roster) in
      let first : Does m (runs (starts query now)) m1 (waits (signs_in user text)) =
        looks_up m query now u h named l then tests_new m1 user text in
      let second : Does m1 (runs (starts query' later)) m3 (finished none) =
        looks_up m1 query' later u h' named l
        then tests_new m2 user text'
        then stores_whole m2 user text' in
      let third : Does m3 (waits (signs_in user text)) m4 (finished none) =
        stores_whole m3 user text in
      let one : Pc = outside (waits (signs_in user text)) in
      let gone : Pc = outside (finished none) in
      record {
        last = record { shared = m4; locked = false; threads = gone ∷ gone ∷ [] };
        reached =
            Reach_trans (Run-Reach [] (outside (runs (starts query' later)) ∷ []) first)
              (Reach_trans (Run-Reach (one ∷ []) [] second) (Run-Reach [] (gone ∷ []) third));
        all_finished = (at_end, (at_end, tt));
        roster =
            push_back-roster m3 (arrived m3 user text)
            ∙ rw (
              push_back-roster m2 (arrived m2 user text'),
              push_back-tm m2 (arrived m2 user text'),
              append_assoc m.roster.v (arrived m2 user text' ∷ []) (arrival c u now later ∷ []),
            );
      }

  -- If two threads get queries that name the same new user, they have an interleaving in which both
  -- finish and the roster has two records of that user: the second runs while the first waits for
  -- the mutex behind `find_id`. The record of the first shows the time at which it came, but its
  -- `start_time` is the one of the second, through the shared `struct tm`.
  pub two_arrivals :
      (m : Shared c) (query query' : Bytes) (now later : ℕ) (u : User)
      → sender query ≡ done u
      → sender query' ≡ done u
      → All IsNamed m.roster.v
      → Lacks u m.roster.v
      → Settles
          (at_start m ((query, now) ∷ (query', later) ∷ []))
          (stored_twice c m.roster u now later)
        × (¬ IsDistinct (stored_twice c m.roster u now later).v)
  two_arrivals m query query' now later u h h' named l = (
    arrives_twice m query query' now later u h h' named l,
    Distinct-twice m.roster.v (arrival c u later later) (arrival c u now later) refl,
  )
