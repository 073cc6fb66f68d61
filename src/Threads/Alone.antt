-- ===== src/Threads/Alone.antt =====
-- server/server_http.h: a thread that runs while the others stand still.
pub mod Query
pub mod Find
pub mod Departure
pub mod Table
pub mod Whole
pub mod Sequence
pub mod Always
use face_perception.Common.{Bool, false, true, ◌≡◌, refl, List, ◌∷◌, ◌++◌}
use face_perception.Outcome.{done}
use face_perception.Attendance.Roster.{Calendar}
use face_perception.Threads.Places.{Section, Point, Free, runs, waits, Pc, outside}
use face_perception.Threads.Vector.{Shared}
use face_perception.Threads.Actions.{step, enter}
use face_perception.Threads.Steps.{
  Move, acts, lock, works, unlock, System, Step, picks, Reach, start, later,
}

module _ {c : Calendar} where
  -- The moves of one thread from a state to another.
  pub data Run (m : Shared c) (b : Bool) (pc : Pc) : Shared c → Bool → Pc → Type 0 where
    stays : Run m b pc m b pc
    goes :
        {m1 m2 : Shared c} {b1 b2 : Bool} {pc1 pc2 : Pc}
        → Run m b pc m1 b1 pc1
        → Move m1 b1 pc1 m2 b2 pc2
        → Run m b pc m2 b2 pc2

  -- The same from and to a place where the mutex is free.
  abbrev pub Does : Shared c → Free → Shared c → Free → Type 0
  Does m f m' f' = Run m false (outside f) m' false (outside f')

  infixl 5 ◌then◌
  pub ◌then◌ :
      {m m1 : Shared c} {b b1 : Bool} {pc pc1 : Pc} {m2 : Shared c} {b2 : Bool} {pc2 : Pc}
      → Run m b pc m1 b1 pc1
      → Run m1 b1 pc1 m2 b2 pc2
      → Run m b pc m2 b2 pc2
  r then stays = r
  r then goes q move = goes (r then q) move

  pub by_step :
      {m m' : Shared c} {p : Point} {f : Free} → step p m ≡ done (m', f) → Does m (runs p) m' f
  by_step e = goes stays (acts e)

  -- A critical section.
  pub by_section :
      {m m' : Shared c} {k : Section} {p : Point}
      → enter k m ≡ done (m', p)
      → Does m (waits k) m' (runs p)
  by_section e = goes (goes (goes stays lock) (works e)) unlock

  -- A run of a thread is a sequence of steps of the whole.
  pub Run-Reach :
      (before after : List Pc) {m : Shared c} {b : Bool} {pc : Pc} {m' : Shared c} {b' : Bool}
      {pc' : Pc}
      → Run m b pc m' b' pc'
      → Reach
          (record { shared = m; locked = b; threads = before ++ pc ∷ after })
          (record { shared = m'; locked = b'; threads = before ++ pc' ∷ after })
  Run-Reach before after stays = start
  Run-Reach before after (goes r move) =
      later (Run-Reach before after r) (picks before after refl refl move)

  pub Reach_trans : {s t u : System c} → Reach s t → Reach t u → Reach s u
  Reach_trans r start = r
  Reach_trans r (later q st) = later (Reach_trans r q) st
