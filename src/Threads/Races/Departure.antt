-- ===== src/Threads/Races/Departure.antt =====
-- server/server_http.h: a new user who is taken for another one that leaves.
use face_perception.Common.{
  ℕ, ◌+◌, ◌%◌, ◌^◌, false, ◌≡◌, ◌≢◌, refl, subst, ap, Bytes, [], ◌∷◌, ◌++◌, codes, none, some, All,
  All-append, length, arith,
}
use face_perception.Common.Int.{pos, sub_ℕ, ◌+ℤ◌}
use face_perception.Outcome.{done}
use face_perception.Memory.{zeros, write, c_text}
use face_perception.Attendance.Node.{UserNode, buynode}
use face_perception.Attendance.WorkTime.{to_int, carry_seconds, calculat_work_time}
use face_perception.Attendance.Report.{
  field_text, int_to_str, decimal, digits, int_to_string, get_total_string,
}
use face_perception.Attendance.Show.{show}
use face_perception.Attendance.Roster.{Calendar, Roster}
use face_perception.Attendance.Roster.Lookup.{User, Lacks, is_of}
use face_perception.Attendance.Roster.Find.{IsNamed}
use face_perception.Attendance.Roster.History.{sender}
use face_perception.Threads.Places.{Pc, outside, runs, finished, starts, tests}
use face_perception.Threads.Vector.{Shared, push_back, end}
use face_perception.Threads.Vector.Laws.{
  with_elements, with_elements_self, push_back-roster, push_back-tm, push_back-block,
}
use face_perception.Threads.Steps.{at_start}
use face_perception.Threads.Mutex.{at_end}
use face_perception.Threads.Alone.{Does, ◌then◌, Run-Reach, Reach_trans}
use face_perception.Threads.Alone.Find.{tests_found}
use face_perception.Threads.Alone.Departure.{signs_out}
use face_perception.Threads.Alone.Whole.{tests_new}
use face_perception.Threads.Alone.Table.{written, shows_table}
use face_perception.Threads.Alone.Sequence.{Settles}
use face_perception.Threads.Races.{looked_up, looks_up}
use face_perception.Threads.Races.Arrivals.{arrival, stores_whole}

-- A user who leaves at the moment of the arrival has worked for no time.
sub_ℕ_self : (n : ℕ) → sub_ℕ n n ≡ pos 0
sub_ℕ_self n = ground arith

no_time : (n : UserNode) → n.sec ≡ pos 0 → n.end_time ≡ n.start_time → calculat_work_time n ≡ done n
unfolding calculat_work_time to_int carry_seconds ◌+ℤ◌
no_time n s e = rw (s, e, sub_ℕ_self n.start_time)

module _ (c : Calendar) where
  -- The record of the first user once the thread of the second has used it.
  abbrev pub mistaken : User → ℕ → ℕ → UserNode
  mistaken u now later = record (arrival c u now now) {
    end_time = c.mktime (c.localtime now);
    leave_time = c.strftime (c.localtime later);
  }

  abbrev report_of : User → ℕ → ℕ → Bytes
  report_of u now later = get_total_string (mistaken u now later) ++ codes "0:0:0:0"

  zero_report :
      (u : User) (now later : ℕ) → int_to_string (mistaken u now later) ≡ done (codes "0:0:0:0")
  unfolding int_to_string field_text int_to_str decimal digits to_int zeros write c_text
  zero_report u now later = refl

module _ {c : Calendar} where
  -- The states after the first part of the second thread, after the first thread, and at the end.
  abbrev after_first : Shared c → User → ℕ → ℕ → Shared c
  after_first m u now later =
      let m2 : Shared c = looked_up (looked_up m later) now in
      let new : Shared c = push_back m2 (arrival c u now now) in written new (show new.roster)

  abbrev at_last : Shared c → User → ℕ → ℕ → Shared c
  at_last m u now later =
      with_elements (after_first m u now later) (m.roster.v ++ mistaken c u now later ∷ [])

  -- The second thread from the test behind `find_id` on, when the first has finished.
  takes_for :
      (m : Shared c) (user : UserNode) (u : User) (now later : ℕ)
      → length m.roster.v ≢ m.capacity
      → let m' = at_last m u now later in
        Does
          (after_first m u now later)
          (runs (tests user (c.strftime (c.localtime later)) (end m)))
          (written m' (show m'.roster))
          (finished (some (report_of c u now later)))
  takes_for m user u now later room =
      let rec1 : UserNode = arrival c u now now in
      let text : Bytes = c.strftime (c.localtime later) in
      let m2 : Shared c = looked_up (looked_up m later) now in
      let m3 : Shared c = after_first m u now later in
      let m' : Shared c = at_last m u now later in
      let report : Bytes = report_of c u now later in
      let e : m3.roster.v ≡ m.roster.v ++ rec1 ∷ [] =
        ap (λ (r : Roster). r.v) (push_back-roster m2 rec1) in
      let k : m3.block ≡ m.block = push_back-block m2 rec1 room in
      let t : m3.tm ≡ c.localtime now = push_back-tm m2 rec1 in
      let found = tests_found m3 user text m.roster.v [] rec1 e in
      let worked : calculat_work_time (record rec1 { end_time = c.mktime m3.tm; leave_time = text })
          ≡ done (mistaken c u now later) =
        rw t (no_time (mistaken c u now later) refl refl) in
      let left = signs_out m3 m.roster.v [] text rec1 worked (zero_report c u now later) in
      let left' = rw (with_elements_self m3 e) at left in
      let whole = found then left' then shows_table m' (some report) in
      subst
        (λ b.
          Does m3 (runs (tests user text (record { block = b; index = length m.roster.v })))
            (written m' (show m'.roster)) (finished (some report)))
        k whole

  -- If two threads get queries that name different new users, and the array of `v` has room, they
  -- have an interleaving in which both finish, the record of the first user has a departure, at the
  -- time of the second's arrival, and the second has no record.
  pub mistaken_departure :
      (m : Shared c) (query query' : Bytes) (now later : ℕ) (u w : User)
      → sender query ≡ done u
      → sender query' ≡ done w
      → All IsNamed m.roster.v
      → Lacks u m.roster.v
      → Lacks w m.roster.v
      → is_of w (buynode u.name u.id) ≡ false
      → length m.roster.v ≢ m.capacity
      → Settles (at_start m ((query, now) ∷ (query', later) ∷ [])) (record {
        size = ((m.roster.size + 1) % 2 ^ 32 + 1) % 2 ^ 32;
        v = m.roster.v ++ mistaken c u now later ∷ [];
      })
        × Lacks w (m.roster.v ++ mistaken c u now later ∷ [])
  mistaken_departure m query query' now later u w h h' named l l' apart room =
      let user : UserNode = buynode u.name u.id in
      let other : UserNode = buynode w.name w.id in
      let text : Bytes = c.strftime (c.localtime later) in
      let m1 : Shared c = looked_up m later in
      let m2 : Shared c = looked_up m1 now in
      let m3 : Shared c = after_first m u now later in
      let m' : Shared c = at_last m u now later in
      let whole : Does m1 (runs (starts query now)) m3 (finished none) =
        looks_up m1 query now u h named l
        then tests_new m2 user (c.strftime (c.localtime now))
        then stores_whole m2 user (c.strftime (c.localtime now)) in
      let waiting : Pc = outside (runs (tests other text (end m))) in
      let gone : Pc = outside (finished none) in
      (
        record {
          last = record {
            shared = written m' (show m'.roster);
            locked = false;
            threads = gone ∷ outside (finished (some (report_of c u now later))) ∷ [];
          };
          reached =
              Reach_trans
                (Run-Reach (outside (runs (starts query now)) ∷ []) []
                  (looks_up m query' later w h' named l'))
                (Reach_trans (Run-Reach [] (waiting ∷ []) whole)
                  (Run-Reach (gone ∷ []) [] (takes_for m other u now later room)));
          all_finished = (at_end, (at_end, tt));
          roster =
              ap (λ (r : Roster). record r { v = m.roster.v ++ mistaken c u now later ∷ [] })
                (push_back-roster m2 (arrival c u now now));
        },
        All-append (λ n. is_of w n ≡ false) m.roster.v (mistaken c u now later ∷ []) l' (apart, tt),
      )
