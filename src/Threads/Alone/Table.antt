-- ===== src/Threads/Alone/Table.antt =====
-- server/server_http.h: a thread in `show`, at the end of `send_vector`.
use face_perception.Common.{
  ◌+◌, ◌≡◌, refl, sym, ◌∙◌, Bytes, List, [], ◌∷◌, ◌++◌, Option, append_assoc, append-nil, arith,
  length, length-append,
}
use face_perception.Attendance.Node.{UserNode}
use face_perception.Attendance.Roster.{Calendar}
use face_perception.Attendance.Show.{show_head, show_row, show_rows, show}
use face_perception.Threads.Places.{runs, finished, shows, shows_row}
use face_perception.Threads.Vector.{Shared}
use face_perception.Threads.Vector.Laws.{behind, element-behind, at_end-behind, at_end-end}
use face_perception.Threads.Actions.{step}
use face_perception.Threads.Alone.{Does, ◌then◌, by_step}

module _ {c : Calendar} where
  -- The state with `t` on the console.
  abbrev pub written : Shared c → Bytes → Shared c
  written m t = record m { console = m.console ++ t }

  shows_rows :
      (m : Shared c) (report : Option Bytes) (before rest : List UserNode)
      → m.roster.v ≡ before ++ rest
      → Does m
          (runs (shows_row report (behind m before)))
          (written m (show_rows rest))
          (finished report)
  unfolding step
  shows_rows m report before [] e =
      let shown : Does m (runs (shows_row report (behind m before))) m (finished report) =
        by_step (rw (at_end-end m before (e ∙ append-nil before))) in
      rw (append-nil m.console) shown
  shows_rows m report before (cur ∷ rest) e =
      let k : length (before ++ cur ∷ []) ≡ length before + 1 =
        omega (arith, length-append before (cur ∷ [])) in
      let m' : Shared c = written m (show_row cur) in
      let row : Does m (runs (shows_row report (behind m before))) m'
          (runs (shows_row report (behind m' (before ++ cur ∷ [])))) =
        by_step (rw (at_end-behind m before rest cur e, element-behind m before rest cur e, k)) in
      let others =
        shows_rows m' report (before ++ cur ∷ []) rest
          (e ∙ sym (append_assoc before (cur ∷ []) rest)) in
      let last = rw (append_assoc m.console (show_row cur) (show_rows rest)) at others in
      row then last

  pub shows_table :
      (m : Shared c) (report : Option Bytes)
      → Does m (runs (shows report)) (written m (show m.roster)) (finished report)
  unfolding step
  shows_table m report =
      let m' : Shared c = written m show_head in
      let head : Does m (runs (shows report)) m' (runs (shows_row report (behind m' []))) =
        by_step refl in
      let rows = shows_rows m' report [] m.roster.v refl in
      let last = rw (append_assoc m.console show_head (show_rows m.roster.v)) at rows in
      head then last
