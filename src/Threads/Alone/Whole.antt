-- ===== src/Threads/Alone/Whole.antt =====
-- server/server_http.h: a thread that runs while the others stand still does what `send_vector` of
-- Attendance/Roster does.
use face_perception.Common.{
  ℕ, ◌+◌, ◌%◌, ◌^◌, ◌≡◌, refl, sym, subst, Bytes, [], ◌∷◌, ◌++◌, Option, none, some,
}
use face_perception.Outcome.{done, >>=-eq-done, done-injective}
use face_perception.Memory.{strlen}
use face_perception.Attendance.Node.{UserNode, buynode}
use face_perception.Attendance.Query.{get_string}
use face_perception.Attendance.WorkTime.{calculat_work_time}
use face_perception.Attendance.Report.{int_to_string, get_total_string}
use face_perception.Attendance.Show.{show}
use face_perception.Attendance.Roster.{
  Calendar, Roster, Iterator, found, store, find_loop, find_id, sign_out, record_visit, send_vector,
}
use face_perception.Threads.Places.{
  Free, runs, waits, finished, counts, signs_in, starts, finds, ends, tests, leaves, shows,
}
use face_perception.Threads.Vector.{Shared, begin, end, push_back}
use face_perception.Threads.Vector.Laws.{
  with_elements, with_elements_self, behind, at_end-end, push_back-roster, push_back-console,
}
use face_perception.Threads.Actions.{step, enter}
use face_perception.Threads.Alone.{Does, stays, ◌then◌, by_step, by_section}
use face_perception.Threads.Alone.Query.{reads_query, reads_time}
use face_perception.Threads.Alone.Find.{Found, hits, misses, find_loop-Found}
use face_perception.Threads.Alone.Departure.{signs_out}
use face_perception.Threads.Alone.Table.{shows_table}

module _ {c : Calendar} where
  abbrev pub counted : Shared c → Shared c
  counted m = record m { roster = record m.roster { size = (m.roster.size + 1) % 2 ^ 32 } }

  -- A new user: the section of `find_id`, the test behind it, and the section that stores the record.
  pub counts_new :
      (m : Shared c) (user : UserNode) (text : Bytes)
      → Does m (waits (counts user text)) (counted m) (runs (tests user text (end m)))
  unfolding step enter
  counts_new m user text =
      let count : Does m (waits (counts user text)) (counted m) (runs (ends user text)) =
        by_section refl in
      let ended : Does (counted m) (runs (ends user text)) (counted m)
          (runs (tests user text (end m))) =
        by_step refl in
      count then ended

  pub tests_new :
      (m : Shared c) (user : UserNode) (text : Bytes)
      → Does m (runs (tests user text (end m))) m (waits (signs_in user text))
  unfolding step
  tests_new m user text = by_step (rw (at_end-end m m.roster.v refl))

  abbrev pub arrived : Shared c → UserNode → Bytes → UserNode
  arrived m user text = record user { start_time = c.mktime m.tm; arrive_time = text }

  pub stores_new :
      (m : Shared c) (user : UserNode) (text : Bytes)
      → Does m (waits (signs_in user text)) (push_back m (arrived m user text)) (runs (shows none))
  unfolding enter
  stores_new m user text = by_section refl

  signs_in_new :
      (m : Shared c) (user : UserNode) (text : Bytes)
      → Does m
          (waits (counts user text))
          (push_back (counted m) (arrived m user text))
          (runs (shows none))
  signs_in_new m user text =
      counts_new m user text
      then tests_new (counted m) user text
      then stores_new (counted m) user text

  -- A run of a thread from `f` to its end, which leaves this roster and writes it to the console.
  pub record Comes (m : Shared c) (f : Free) (out : Roster × Option Bytes) : Type 0 where
    pub last : Shared c
    pub ran : Does m f last (finished out.1)
    pub roster : last.roster ≡ out.0
    pub console : last.console ≡ m.console ++ show out.0

  Comes-shows :
      (m m' : Shared c) (f : Free) {r : Roster} {report : Option Bytes}
      → Does m f m' (runs (shows report))
      → m'.roster ≡ r
      → m'.console ≡ m.console
      → Comes m f (r, report)
  Comes-shows m m' f {r} {report} run e k = record {
    last = _;
    ran = run then shows_table m' report;
    roster = e;
    console = rw (k, e);
  }

  Comes-found :
      (m : Shared c) (f : Free) (text : Bytes) (it : Iterator) {d : UserNode × Bytes}
      → c.strftime m.tm ≡ text
      → m.roster.v ≡ it.before ++ it.cur ∷ it.after
      → Does m f m (runs (leaves text (behind m it.before)))
      → sign_out c m.tm it.cur ≡ done d
      → Comes m f (record m.roster { v = it.before ++ d.0 ∷ it.after }, some d.1)
  unfolding sign_out
  Comes-found m f text it {d} t e run h =
      let (cur, a, h1) =
        >>=-eq-done
          (calculat_work_time
            (record it.cur { end_time = c.mktime m.tm; leave_time = c.strftime m.tm }))
          _ h in
      let (time, b, h2) = >>=-eq-done (int_to_string cur) _ h1 in
      let left = signs_out m it.before it.after text it.cur (rw t at a) b in
      let m' : Shared c = with_elements m (it.before ++ cur ∷ it.after) in
      let whole : Does m f m' (runs (shows (some (get_total_string cur ++ time)))) =
        run then rw (with_elements_self m e) at left in
      subst
        (λ (x : UserNode × Bytes).
          Comes m f (record m.roster { v = it.before ++ x.0 ∷ it.after }, some x.1))
        (done-injective h2) (Comes-shows m m' f whole refl refl)

  Comes-missed :
      (m : Shared c) (f : Free) (user : UserNode) (text : Bytes)
      → Does m f m (waits (counts user text))
      → Comes m f (
        record {
          size = (m.roster.size + 1) % 2 ^ 32;
          v = m.roster.v ++ record user { start_time = c.mktime m.tm; arrive_time = text } ∷ [];
        },
        none,
      )
  Comes-missed m f user text run =
      let new : UserNode = record user { start_time = c.mktime m.tm; arrive_time = text } in
      Comes-shows m (push_back (counted m) new) f (run then signs_in_new m user text)
        (push_back-roster (counted m) new) (push_back-console (counted m) new)

  Comes-Found :
      (m : Shared c) (f : Free) (name id : Bytes) {it : Option Iterator}
      {out : Roster × Option Bytes}
      → Does m f m (runs (finds (buynode name id) (c.strftime m.tm) (begin m)))
      → Found m (buynode name id) (c.strftime m.tm) [] it
      → store c m.tm (buynode name id) (found m.roster it) ≡ done out
      → Comes m f out
  Comes-Found m f name id run (hits {it} e found_at) h =
      let (d, a, last) = >>=-eq-done (sign_out c m.tm it.cur) _ h in
      subst (Comes m f) (done-injective last)
        (Comes-found m f (c.strftime m.tm) it refl e (run then found_at) a)
  Comes-Found m f name id run (misses past) h =
      subst (Comes m f) (done-injective h)
        (Comes-missed m f (buynode name id) (c.strftime m.tm) (run then past))

  Comes-visit :
      (m : Shared c) (f : Free) (name id : Bytes) {out : Roster × Option Bytes}
      → Does m f m (runs (finds (buynode name id) (c.strftime m.tm) (begin m)))
      → record_visit c name id m.tm m.roster ≡ done out
      → Comes m f out
  unfolding record_visit find_id
  Comes-visit m f name id {out} run h =
      let user : UserNode = buynode name id in
      let (result, e, stored) = >>=-eq-done (find_id m.roster user) _ h in
      let (it, a, b) = >>=-eq-done (find_loop [] m.roster.v user) _ e in
      Comes-Found m f name id run (find_loop-Found m user (c.strftime m.tm) [] m.roster.v refl a)
        (subst (λ x. store c m.tm user x ≡ done out) (sym (done-injective b)) stored)

  -- A thread that runs from its start to its end while no other does leaves the roster that
  -- `send_vector` gives, and has its report and the roster's table on the console.
  pub thread_alone :
      (m : Shared c) (query : Bytes) (now : ℕ) {out : Roster × Option Bytes}
      → send_vector c query now m.roster ≡ done out
      → Comes m (runs (starts query now)) out
  unfolding send_vector
  thread_alone m query now {out} h =
      let (len, a, h1) = >>=-eq-done (strlen query) _ h in
      let (u, b, h2) = >>=-eq-done (get_string query len) _ h1 in
      let m1 : Shared c = record m { tm = c.localtime now } in
      let r =
        Comes-visit m1 (runs (finds (buynode u.0 u.1) (c.strftime m1.tm) (begin m1))) u.0 u.1 stays
          h2 in
      record {
        last = r.last;
        ran = reads_query m query now a b then reads_time m u.0 u.1 now then r.ran;
        roster = r.roster;
        console = r.console;
      }
