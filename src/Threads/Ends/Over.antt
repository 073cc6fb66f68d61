-- ===== src/Threads/Ends/Over.antt =====
-- server/server_http.h: from wherever the threads are, they come to the end of all, or to a fault.
use face_perception.Common.{ℕ, zero, suc, ◌≤◌, Bytes, List, All, arith}
use face_perception.Attendance.Roster.{Calendar}
use face_perception.Threads.Places.{Pc}
use face_perception.Threads.Vector.{Shared}
use face_perception.Threads.Steps.{System, at_start, Step, Reach, start, later}
use face_perception.Threads.Mutex.{
  HasFinished, IsAmong, Fails, finishes, goes_on, breaks, no_deadlock,
}
use face_perception.Threads.Alone.{Reach_trans}
use face_perception.Threads.Ends.Bound.{moves_left, Step-moves_left}

module _ {c : Calendar} where
  pub data IsOver (t : System c) : Type 0 where
    all_end : All HasFinished t.threads → IsOver t
    one_fails : {pc : Pc} → IsAmong pc t.threads → Fails t.shared pc → IsOver t

  -- Steps that lead to such a state.
  pub record LeadsOut (s : System c) : Type 0 where
    pub last : System c
    pub reached : Reach s last
    pub over : IsOver last

  Step-LeadsOut : {s t : System c} → Step s t → LeadsOut t → LeadsOut s
  Step-LeadsOut st l = record {
    last = l.last;
    reached = Reach_trans (later start st) l.reached;
    over = l.over;
  }

  leads_out :
      (n : ℕ) {m : Shared c} (calls : List (Bytes × ℕ)) {t : System c}
      → Reach (at_start m calls) t
      → moves_left t ≤ n
      → LeadsOut t
  leads_out zero calls {t} r le = elim (no_deadlock calls r) [
    | finishes h ↦ record { last = t; reached = start; over = all_end h }
    | breaks i f ↦ record { last = t; reached = start; over = one_fails i f }
    | goes_on st ↦ absurd (omega (arith, Step-moves_left st))
  ]
  leads_out (suc n) calls {t} r le = elim (no_deadlock calls r) [
    | finishes h ↦ record { last = t; reached = start; over = all_end h }
    | breaks i f ↦ record { last = t; reached = start; over = one_fails i f }
    | goes_on st ↦
        Step-LeadsOut st (leads_out n calls (later r st) (omega (arith, Step-moves_left st)))
  ]

  -- From every state that the threads of the calls come to, steps lead to one in which all of them
  -- have finished, or the next move of one of them is a fault or does not return.
  pub reached-LeadsOut :
      {m : Shared c} (calls : List (Bytes × ℕ)) {t : System c}
      → Reach (at_start m calls) t
      → LeadsOut t
  reached-LeadsOut calls {t} r = leads_out (moves_left t) calls r (omega arith)
