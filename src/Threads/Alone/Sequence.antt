-- ===== src/Threads/Alone/Sequence.antt =====
-- server/server_http.h: threads that run one after another.
use face_perception.Common.{
  ℕ, false, ◌≡◌, sym, subst, Bytes, List, [], ◌∷◌, ◌++◌, append_assoc, append-nil, All, All-append,
}
use face_perception.Outcome.{done, >>=-eq-done, done-injective}
use face_perception.Attendance.Roster.{Calendar, Roster, send_vector}
use face_perception.Attendance.Roster.History.{run}
use face_perception.Threads.Places.{Pc, outside, finished}
use face_perception.Threads.Vector.{Shared}
use face_perception.Threads.Steps.{System, callers, at_start, Reach, start}
use face_perception.Threads.Mutex.{HasFinished, at_end}
use face_perception.Threads.Alone.{Run-Reach, Reach_trans}
use face_perception.Threads.Alone.Whole.{thread_alone}

module _ {c : Calendar} where
  -- A state in which all threads have finished and the roster is `r`.
  pub record Settles (s : System c) (r : Roster) : Type 0 where
    pub last : System c
    pub reached : Reach s last
    pub all_finished : All HasFinished last.threads
    pub roster : last.shared.roster ≡ r

  abbrev among : Shared c → List Pc → List (Bytes × ℕ) → System c
  among m earlier calls = record { shared = m; locked = false; threads = earlier ++ callers calls }

  settles :
      (m : Shared c) (earlier : List Pc) (calls : List (Bytes × ℕ)) {r : Roster}
      → All HasFinished earlier
      → run c calls m.roster ≡ done r
      → Settles (among m earlier calls) r
  unfolding run
  settles m earlier [] h e = record {
    last = among m earlier [];
    reached = start;
    all_finished = rw (append-nil earlier) h;
    roster = done-injective e;
  }
  settles m earlier ((query, now) ∷ calls) {r} h e =
      let (out, a, later) = >>=-eq-done (send_vector c query now m.roster) _ e in
      let one = thread_alone m query now a in
      let pc : Pc = outside (finished out.1) in
      let others : Settles (among one.last (earlier ++ pc ∷ []) calls) r =
        settles one.last (earlier ++ pc ∷ []) calls
          (All-append HasFinished earlier (pc ∷ []) h (at_end, tt))
          (subst (λ x. run c calls x ≡ done r) (sym one.roster) later) in
      record {
        last = others.last;
        reached = Reach_trans (Run-Reach earlier (callers calls) one.ran) (
            subst
              (λ pcs.
                Reach (record { shared = one.last; locked = false; threads = pcs }) others.last)
              (append_assoc earlier (pc ∷ []) (callers calls)) others.reached);
        all_finished = others.all_finished;
        roster = others.roster;
      }

  -- If the calls of a history all return one after another, the threads that make them have an
  -- interleaving in which all of them finish, and leave the roster that the history gives.
  pub one_after_another :
      (m : Shared c) (calls : List (Bytes × ℕ)) {r : Roster}
      → run c calls m.roster ≡ done r
      → Settles (at_start m calls) r
  one_after_another m calls e = settles m [] calls tt e
