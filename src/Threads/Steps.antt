-- ===== src/Threads/Steps.antt =====
-- server/server_http.h: the mutex, and the threads interleaved in any order.
use face_perception.Common.{ℕ, Bool, true, false, ◌≡◌, Bytes, List, [], ◌∷◌, ◌++◌}
use face_perception.Outcome.{done}
use face_perception.Attendance.Roster.{Calendar}
use face_perception.Threads.Places.{
  Section, Point, Free, runs, waits, Pc, outside, inside, unlocks, starts,
}
use face_perception.Threads.Vector.{Shared}
use face_perception.Threads.Actions.{step, enter}

module _ {c : Calendar} where
  -- A move of one thread, with what is shared and whether the mutex is locked, before and after.
  pub data Move : Shared c → Bool → Pc → Shared c → Bool → Pc → Type 0 where
    acts :
        {m m' : Shared c} {locked : Bool} {p : Point} {f : Free}
        → step p m ≡ done (m', f)
        → Move m locked (outside (runs p)) m' locked (outside f)
    lock : {m : Shared c} {k : Section} → Move m false (outside (waits k)) m true (inside k)
    works :
        {m m' : Shared c} {locked : Bool} {k : Section} {p : Point}
        → enter k m ≡ done (m', p)
        → Move m locked (inside k) m' locked (unlocks p)
    unlock :
        {m : Shared c} {locked : Bool} {p : Point}
        → Move m locked (unlocks p) m false (outside (runs p))

module _ (c : Calendar) where
  pub record System : Type 0 where
    pub shared : Shared c
    pub locked : Bool
    pub threads : List Pc

-- The threads before they run: each has the query that it calls `send_vector` with, and the time
-- that it will read off the clock.
abbrev pub callers : List (Bytes × ℕ) → List Pc
callers [] = []
callers ((query, now) ∷ calls) = outside (runs (starts query now)) ∷ callers calls

module _ {c : Calendar} where
  abbrev pub at_start : Shared c → List (Bytes × ℕ) → System c
  at_start m calls = record { shared = m; locked = false; threads = callers calls }

  -- One of the threads moves.
  pub data Step (s t : System c) : Type 0 where
    picks :
        (before after : List Pc) {pc pc' : Pc}
        → s.threads ≡ before ++ pc ∷ after
        → t.threads ≡ before ++ pc' ∷ after
        → Move s.shared s.locked pc t.shared t.locked pc'
        → Step s t

  pub data Reach (s : System c) : System c → Type 0 where
    start : Reach s s
    later : {t u : System c} → Reach s t → Step t u → Reach s u
