-- ===== src/Threads/Races/Clock.antt =====
-- server/server_http.h: a departure that another thread's clock is used for.
use face_perception.Common.{
  ℕ, zero, suc, false, ◌+◌, ◌%◌, ◌^◌, ◌≡◌, ◌≢◌, subst, ap, ◌∙◌, Bytes, List, [], ◌∷◌, ◌++◌, some,
  none, All, length, arith, append_assoc, Bool-cases, inl, inr,
}
use face_perception.Common.Int.{pos, pos_part, leb_ℤ, ◌+ℤ◌, ◌-ℤ◌}
use face_perception.Outcome.{done, >>=-eq-done, done-injective}
use face_perception.Attendance.Node.{UserNode, buynode}
use face_perception.Attendance.WorkTime.{
  to_int, difftime, carry_minutes, carry_hours, carry_minute, carry_seconds, calculat_work_time,
}
use face_perception.Attendance.Report.{int_to_string, get_total_string}
use face_perception.Attendance.Show.{show}
use face_perception.Attendance.Roster.{Calendar, Roster, sign_out}
use face_perception.Attendance.Roster.Lookup.{User, Lacks, StandsIn}
use face_perception.Attendance.Roster.Find.{IsNamed}
use face_perception.Attendance.Roster.History.{sender}
use face_perception.Threads.Places.{Pc, outside, runs, finished, starts, leaves}
use face_perception.Threads.Vector.{Shared, push_back}
use face_perception.Threads.Vector.Laws.{
  with_elements, with_elements_self, behind, push_back-roster, push_back-tm, push_back-block,
}
use face_perception.Threads.Steps.{at_start}
use face_perception.Threads.Mutex.{at_end}
use face_perception.Threads.Alone.{Does, ◌then◌, Run-Reach, Reach_trans}
use face_perception.Threads.Alone.Departure.{signs_out}
use face_perception.Threads.Alone.Whole.{tests_new}
use face_perception.Threads.Alone.Table.{written, shows_table}
use face_perception.Threads.Alone.Sequence.{Settles}
use face_perception.Threads.Races.{looked_up, looks_up, known_up}
use face_perception.Threads.Races.Arrivals.{arrival, stores_whole}

-- The record with another text for the time of the departure.
abbrev pub labelled : Bytes → UserNode → UserNode
labelled text n = record n { leave_time = text }

carry_minute-labelled :
    (text : Bytes) (n : UserNode) → carry_minute (labelled text n) ≡ labelled text (carry_minute n)
unfolding carry_minute carry_minutes carry_hours ◌-ℤ◌
carry_minute-labelled text n = ground arith

carry_seconds-labelled :
    (fuel : ℕ) (text : Bytes) (n : UserNode) {m : UserNode}
    → carry_seconds fuel n ≡ done m
    → carry_seconds fuel (labelled text n) ≡ done (labelled text m)
unfolding carry_seconds
carry_seconds-labelled zero text n h = cc
carry_seconds-labelled (suc fuel) text n {m} h = elim (Bool-cases (leb_ℤ (pos 60) n.sec)) [
  | inl more ↦
      rw (more, carry_minute-labelled text n)
        (carry_seconds-labelled fuel text (carry_minute n) (rw more at h))
  | inr last ↦ rw last (ap (λ x. done (labelled text x)) (done-injective (rw last at h)))
]

calculat_work_time-labelled :
    (text : Bytes) (n : UserNode) {m : UserNode}
    → calculat_work_time n ≡ done m
    → calculat_work_time (labelled text n) ≡ done (labelled text m)
unfolding calculat_work_time
calculat_work_time-labelled text n h =
    let (sec, e, later) = >>=-eq-done (to_int (n.sec +ℤ difftime n.end_time n.start_time)) _ h in
    rw e (carry_seconds-labelled (suc (pos_part sec)) text (record n { sec = sec }) later)

module _ (c : Calendar) where
  -- A departure at the time `tm`, under another text for that time.
  record Departs (prev : UserNode) (out : UserNode × Bytes) (tm : c.Tm) (text : Bytes)
      : Type 0 where
    time : Bytes
    worked :
        calculat_work_time (record prev { end_time = c.mktime tm; leave_time = text })
        ≡ done (labelled text out.0)
    timed : int_to_string (labelled text out.0) ≡ done time

module _ {c : Calendar} where
  sign_out-Departs :
      (prev : UserNode) {out : UserNode × Bytes} (tm : c.Tm) (text : Bytes)
      → sign_out c tm prev ≡ done out
      → Departs c prev out tm text
  unfolding sign_out int_to_string
  sign_out-Departs prev {out} tm text h =
      let (cur, a, h1) =
        >>=-eq-done
          (calculat_work_time (record prev { end_time = c.mktime tm; leave_time = c.strftime tm }))
          _ h in
      let (time, b, h2) = >>=-eq-done (int_to_string cur) _ h1 in
      let found : Departs c prev (cur, get_total_string cur ++ time) tm text = record {
        time = time;
        worked =
            calculat_work_time-labelled text
              (record prev { end_time = c.mktime tm; leave_time = c.strftime tm }) a;
        timed = b;
      } in
      subst (λ o. Departs c prev o tm text) (done-injective h2) found

  -- The state behind the second thread.
  abbrev after_arrival : Shared c → User → ℕ → ℕ → Shared c
  after_arrival m w now later =
      let m2 : Shared c = looked_up (record m { tm = c.localtime now }) later in
      let new : Shared c = push_back m2 (arrival c w later later) in written new (show new.roster)

  -- The first thread from its first statement on the record on.
  leaves_late :
      (m : Shared c) (w : User) (now later : ℕ) (before after : List UserNode) (cur : UserNode)
      {out : UserNode × Bytes}
      → m.roster.v ≡ before ++ cur ∷ after
      → length m.roster.v ≢ m.capacity
      → sign_out c (c.localtime later) cur ≡ done out
      → let text = c.strftime (c.localtime now) in
        let m3 = after_arrival m w now later in
        let m' =
          with_elements m3
            (before ++ labelled text out.0 ∷ (after ++ arrival c w later later ∷ [])) in
        (report : Bytes) × Does m3
          (runs (leaves text (behind m before)))
          (written m' (show m'.roster))
          (finished (some report))
  leaves_late m w now later before after cur {out} e room h =
      let text : Bytes = c.strftime (c.localtime now) in
      let new : UserNode = arrival c w later later in
      let m2 : Shared c = looked_up (record m { tm = c.localtime now }) later in
      let m3 : Shared c = after_arrival m w now later in
      let v : List UserNode = before ++ labelled text out.0 ∷ (after ++ new ∷ []) in
      let m' : Shared c = with_elements m3 v in
      let d = sign_out-Departs cur (c.localtime later) text h in
      let report : Bytes = get_total_string (labelled text out.0) ++ d.time in
      let splits : m3.roster.v ≡ before ++ cur ∷ (after ++ new ∷ []) =
        ap (λ (r : Roster). r.v) (push_back-roster m2 new)
        ∙ rw (e, append_assoc before (cur ∷ after) (new ∷ [])) in
      let k : m3.block ≡ m.block = push_back-block m2 new room in
      let t : m3.tm ≡ c.localtime later = push_back-tm m2 new in
      let left = signs_out m3 before (after ++ new ∷ []) text cur (rw t d.worked) d.timed in
      let left' = rw (with_elements_self m3 splits) at left in
      let whole = left' then shows_table m' (some report) in
      (
        report,
        subst
            (λ b.
              Does m3 (runs (leaves text (record { block = b; index = length before })))
                (written m' (show m'.roster)) (finished (some report)))
            k whole,
      )

  -- If a thread gets the query of a user who has a record, and another that of a new user, the
  -- array of `v` has room, and a departure at the time that the second thread reads off the clock
  -- returns, they have an interleaving in which both finish and the record is the one of that
  -- departure, but for its `leave_time`, which is the text of the first thread's time: the time
  -- worked runs until the other user's arrival.
  pub borrowed_clock :
      (m : Shared c) (query query' : Bytes) (now later : ℕ) (u w : User)
      {before after : List UserNode} {cur : UserNode} {out : UserNode × Bytes}
      → sender query ≡ done u
      → sender query' ≡ done w
      → All IsNamed m.roster.v
      → StandsIn u m.roster.v before cur after
      → Lacks w m.roster.v
      → length m.roster.v ≢ m.capacity
      → sign_out c (c.localtime later) cur ≡ done out
      → Settles (at_start m ((query, now) ∷ (query', later) ∷ [])) (record {
        size = (m.roster.size + 1) % 2 ^ 32;
        v =
            before
            ++ labelled (c.strftime (c.localtime now)) out.0
              ∷ (after ++ arrival c w later later ∷ []);
      })
  borrowed_clock m query query' now later u w {before} {after} {cur} {out} h h' named s l room d =
      let user : UserNode = buynode w.name w.id in
      let text : Bytes = c.strftime (c.localtime now) in
      let text' : Bytes = c.strftime (c.localtime later) in
      let m1 : Shared c = record m { tm = c.localtime now } in
      let m2 : Shared c = looked_up m1 later in
      let m3 : Shared c = after_arrival m w now later in
      let v : List UserNode =
        before ++ labelled text out.0 ∷ (after ++ arrival c w later later ∷ []) in
      let m' : Shared c = with_elements m3 v in
      let second : Does m1 (runs (starts query' later)) m3 (finished none) =
        looks_up m1 query' later w h' named l
        then tests_new m2 user text'
        then stores_whole m2 user text' in
      let (report, third) = leaves_late m w now later before after cur s.splits room d in
      let waiting : Pc = outside (runs (leaves text (behind m before))) in
      let gone : Pc = outside (finished none) in
      record {
        last = record {
          shared = written m' (show m'.roster);
          locked = false;
          threads = outside (finished (some report)) ∷ gone ∷ [];
        };
        reached =
            Reach_trans
              (Run-Reach [] (outside (runs (starts query' later)) ∷ [])
                (known_up m query now u h named s))
              (Reach_trans (Run-Reach (waiting ∷ []) [] second) (Run-Reach [] (gone ∷ []) third));
        all_finished = (at_end, (at_end, tt));
        roster =
            ap (λ (r : Roster). record r { v = v }) (push_back-roster m2 (arrival c w later later));
      }
