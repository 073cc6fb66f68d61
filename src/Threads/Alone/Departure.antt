-- ===== src/Threads/Alone/Departure.antt =====
-- server/server_http.h: a thread that records a departure, from the test behind `find_id` to `show`.
use face_perception.Common.{
  ℕ, zero, suc, Bool-cases, inl, inr, ◌≡◌, refl, subst, ◌∙◌, Bytes, List, [], ◌∷◌, ◌++◌, some,
  append_assoc,
}
use face_perception.Common.Int.{ℤ, pos, pos_part, leb_ℤ, ◌+ℤ◌}
use face_perception.Outcome.{done, >>=-eq-done, done-injective}
use face_perception.Attendance.Node.{UserNode}
use face_perception.Attendance.WorkTime.{
  to_int, difftime, carry_minute, carry_seconds, calculat_work_time,
}
use face_perception.Attendance.Report.{field_text, int_to_string, get_total_string}
use face_perception.Attendance.Roster.{Calendar}
use face_perception.Threads.Places.{
  Pointer, Point, runs, waits, totals, appends, inserts, leaves, leaves_at, works, carries, writes,
  reports, shows,
}
use face_perception.Threads.Vector.{Shared, element}
use face_perception.Threads.Vector.Laws.{with_elements, behind, element-behind, store_at-behind}
use face_perception.Threads.Actions.{field, step, enter}
use face_perception.Threads.Alone.{Does, ◌then◌, by_step, by_section}

module _ {c : Calendar} (m : Shared c) (before after : List UserNode) where
  -- The state with the record `cur`.
  abbrev now_with : UserNode → Shared c
  now_with cur = with_elements m (before ++ cur ∷ after)

  abbrev it : Pointer
  it = behind m before

  at_it : (cur : UserNode) → element (now_with cur) it ≡ done cur
  at_it cur = element-behind (now_with cur) before after cur refl

  -- One field of `int_to_string`, and what stands behind its section.
  writes_field :
      (cur : UserNode) (n : ℕ) (total time buf : Bytes) {key : ℤ} {p : Point}
      → field n cur ≡ done key
      → field_text key ≡ done buf
      → enter (appends n it total time buf) (now_with cur) ≡ done (now_with cur, p)
      → Does (now_with cur) (runs (writes n it total time)) (now_with cur) (runs p)
  unfolding step
  writes_field cur n total time buf e h k =
      let written : Does (now_with cur) (runs (writes n it total time)) (now_with cur)
          (waits (appends n it total time buf)) =
        by_step (rw (at_it cur, e, h)) in
      written then by_section k

  writes_fields :
      (cur : UserNode) (total d h mn s : Bytes) {days : ℤ}
      → to_int (pos cur.days) ≡ done days
      → field_text days ≡ done d
      → field_text (pos cur.hour) ≡ done h
      → field_text (pos cur.min) ≡ done mn
      → field_text cur.sec ≡ done s
      → Does (now_with cur) (runs (writes 0 it total [])) (now_with cur) (
          runs (
            reports
              (total ++ ((((d ++ b':' ∷ []) ++ (h ++ b':' ∷ [])) ++ (mn ++ b':' ∷ [])) ++ s))))
  unfolding field enter
  writes_fields cur total d h mn s a e f g k =
      writes_field cur 0 total [] d a e refl
      then writes_field cur 1 total (d ++ b':' ∷ []) h refl f refl
      then writes_field cur 2 total ((d ++ b':' ∷ []) ++ (h ++ b':' ∷ [])) mn refl g refl
      then writes_field cur 3 total (((d ++ b':' ∷ []) ++ (h ++ b':' ∷ [])) ++ (mn ++ b':' ∷ [])) s
          refl k refl

  colons :
      (d h mn s : Bytes)
      → (((d ++ b':' ∷ []) ++ (h ++ b':' ∷ [])) ++ (mn ++ b':' ∷ [])) ++ s
        ≡ d ++ (b':' ∷ (h ++ (b':' ∷ (mn ++ (b':' ∷ s)))))
  colons d h mn s = simp append_assoc refl

  writes_report :
      (cur : UserNode) (total : Bytes) {time : Bytes}
      → int_to_string cur ≡ done time
      → Does
          (now_with cur)
          (runs (writes 0 it total []))
          (now_with cur)
          (runs (reports (total ++ time)))
  unfolding int_to_string
  writes_report cur total {time} h =
      let (days, a, h1) = >>=-eq-done (to_int (pos cur.days)) _ h in
      let (d, b, h2) = >>=-eq-done (field_text days) _ h1 in
      let (hours, e, h3) = >>=-eq-done (field_text (pos cur.hour)) _ h2 in
      let (mins, f, h4) = >>=-eq-done (field_text (pos cur.min)) _ h3 in
      let (secs, g, h5) = >>=-eq-done (field_text cur.sec) _ h4 in
      subst
        (λ t.
          Does (now_with cur) (runs (writes 0 it total [])) (now_with cur)
            (runs (reports (total ++ t))))
        (colons d hours mins secs ∙ done-injective h5)
        (writes_fields cur total d hours mins secs a b e f g)

  -- The loop of `calculat_work_time`, from `n` on.
  carries_time :
      (fuel : ℕ) (n : UserNode) {cur : UserNode}
      → carry_seconds fuel n ≡ done cur
      → Does (now_with n) (runs (carries it)) (now_with cur) (waits (totals it))
  unfolding carry_seconds step
  carries_time zero n h = cc
  carries_time (suc fuel) n {cur} h = elim (Bool-cases (leb_ℤ (pos 60) n.sec)) [
    | inl more ↦
        let n' : UserNode = carry_minute n in
        let round : Does (now_with n) (runs (carries it)) (now_with n') (runs (carries it)) =
          by_step (rw (at_it n, more, store_at-behind m before after n n')) in
        round then carries_time fuel n' (rw more at h)
    | inr last ↦
        let e : n ≡ cur = done-injective (rw last at h) in
        let done_with : Does (now_with n) (runs (carries it)) (now_with n) (waits (totals it)) =
          by_step (rw (at_it n, last)) in
        subst (λ x. Does (now_with n) (runs (carries it)) (now_with x) (waits (totals it))) e
          done_with
  ]

  works_time :
      (prev cur : UserNode)
      → calculat_work_time prev ≡ done cur
      → Does (now_with prev) (runs (works it)) (now_with cur) (waits (totals it))
  unfolding calculat_work_time step
  works_time prev cur h =
      let (sec, e, later) =
        >>=-eq-done (to_int (prev.sec +ℤ difftime prev.end_time prev.start_time)) _ h in
      let first : UserNode = record prev { sec = sec } in
      let added : Does (now_with prev) (runs (works it)) (now_with first) (runs (carries it)) =
        by_step (rw (at_it prev, e, store_at-behind m before after prev first)) in
      added then carries_time (suc (pos_part sec)) first later

  leaves_record :
      (text : Bytes) (prev cur : UserNode)
      → calculat_work_time (record prev { end_time = c.mktime m.tm; leave_time = text }) ≡ done cur
      → Does
          (now_with prev)
          (runs (leaves text it))
          (now_with cur)
          (runs (writes 0 it (get_total_string cur) []))
  unfolding step enter
  leaves_record text prev cur h =
      let prev1 : UserNode = record prev { end_time = c.mktime m.tm } in
      let prev2 : UserNode = record prev1 { leave_time = text } in
      let left : Does (now_with prev) (runs (leaves text it)) (now_with prev1)
          (runs (leaves_at text it)) =
        by_step (rw (at_it prev, store_at-behind m before after prev prev1)) in
      let marked : Does (now_with prev1) (runs (leaves_at text it)) (now_with prev2)
          (runs (works it)) =
        by_step (rw (at_it prev1, store_at-behind m before after prev1 prev2)) in
      let worked = works_time prev2 cur h in
      let totalled : Does (now_with cur) (waits (totals it)) (now_with cur)
          (runs (writes 0 it (get_total_string cur) [])) =
        by_section (rw (at_it cur)) in
      left then marked then worked then totalled

  -- `sign_out`, as far as the console.
  pub signs_out :
      (text : Bytes) (prev : UserNode) {cur : UserNode} {time : Bytes}
      → calculat_work_time (record prev { end_time = c.mktime m.tm; leave_time = text }) ≡ done cur
      → int_to_string cur ≡ done time
      → Does
          (now_with prev)
          (runs (leaves text it))
          (now_with cur)
          (runs (shows (some (get_total_string cur ++ time))))
  unfolding step enter
  signs_out text prev {cur} {time} h k =
      let report : Bytes = get_total_string cur ++ time in
      let reported : Does (now_with cur) (runs (reports report)) (now_with cur)
          (waits (inserts report)) =
        by_step refl in
      let inserted : Does (now_with cur) (waits (inserts report)) (now_with cur)
          (runs (shows (some report))) =
        by_section refl in
      leaves_record text prev cur h
      then writes_report cur (get_total_string cur) k
      then reported
      then inserted
