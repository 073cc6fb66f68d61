-- ===== src/Threads/Actions.antt =====
-- server/server_http.h: the steps of `send_vector`, and of `get_string`, `get_time`, `find_id`,
-- `get_total_string`, `int_to_string` and `show`, which it calls.
use face_perception.Common.{
  ℕ, ◌+◌, ◌%◌, ◌^◌, Bool, true, false, Bytes, [], ◌∷◌, ◌++◌, Option, none, some, ltb, ◌==◌,
  if◌then◌else◌,
}
use face_perception.Common.Int.{ℤ, pos, leb_ℤ, ◌+ℤ◌}
use face_perception.Outcome.{Outcome, done, ◌>>=◌, ◌>>◌, assert}
use face_perception.Memory.{zeros, put, write, c_text, strlen}
use face_perception.Attendance.Node.{UserNode, buynode}
use face_perception.Attendance.Query.{pointer_size, new_array, skip_key, copy_value}
use face_perception.Attendance.WorkTime.{to_int, difftime, carry_minute}
use face_perception.Attendance.Report.{field_text, get_total_string}
use face_perception.Attendance.Roster.{Calendar, same_user}
use face_perception.Attendance.Show.{show_head, show_row}
use face_perception.Threads.Places.{
  Pointer, Section, copies_name, skips_key, reads_clock, counts, signs_in, totals, appends, inserts,
  Point, starts, named, numbered, begins, finds, ends, tests, leaves, leaves_at, works, carries,
  writes, reports, shows, shows_row, Free, runs, waits, finished,
}
use face_perception.Threads.Vector.{Shared, begin, end, element, at_end, store_at, push_back}

-- `new char[n + 1]` of `get_string`, behind its assertion.
unfoldable pub new_name : ℕ → Outcome Bytes
new_name n = assert (ltb 0 n) >> write (new_array (n + 1)) 0 (zeros pointer_size)

-- `tmp[i] = '\0'; name = tmp;`
unfoldable pub end_name : Bytes → ℕ → Outcome Bytes
end_name tmp i = do tmp' ← put tmp i 0; c_text tmp'

-- The fields of `int_to_string` in their order: days, hours, minutes, seconds.
unfoldable pub field : ℕ → UserNode → Outcome ℤ
field n cur =
    if n == 0
    then to_int (pos cur.days)
    else (if n == 1
        then done (pos cur.hour)
        else (if n == 2 then done (pos cur.min) else done cur.sec))

abbrev pub next : Pointer → Pointer
next it = record it { index = it.index + 1 }

-- The two branches of `send_vector`, on `prev == v.end()`.
abbrev pub is_found : UserNode → Bytes → Pointer → Bool → Free
is_found user text it true = waits (signs_in user text)
is_found user text it false = runs (leaves text it)

-- `get_time(T)` at the time `now`: the static `struct tm` that `T` points to afterwards, and the text.
abbrev get_time : (c : Calendar) → ℕ → c.Tm × Bytes
get_time c now = let tm = c.localtime now in (tm, c.strftime tm)

-- The first section of `get_string`: `tmp`, `i` and `query` behind it.
abbrev pub copy_name : Bytes → Bytes → Outcome (Bytes × ℕ × Bytes)
copy_name tmp query = do value ← skip_key query; copy_value tmp 0 value

-- A section of `int_to_string`, and the place behind it: the next field, or, behind the last,
-- `total_string += total_time`.
abbrev pub append_field : ℕ → Pointer → Bytes → Bytes → Bytes → Point
append_field n it total time buf =
    if ltb n 3
    then writes (n + 1) it total (time ++ (buf ++ b':' ∷ []))
    else reports (total ++ (time ++ buf))

module _ {c : Calendar} where
  -- `size++`
  abbrev count_user : Shared c → Shared c
  count_user m = record m { roster = record m.roster { size = (m.roster.size + 1) % 2 ^ 32 } }

  abbrev pub write_line : Shared c → Bytes → Shared c
  write_line m t = record m { console = m.console ++ t }

  -- The rounds of the two loops, on `it == v.end()`.
  abbrev pub find_next : Shared c → UserNode → Bytes → Pointer → Bool → Outcome (Shared c × Free)
  find_next m user text it true = done (m, waits (counts user text))
  find_next m user text it false = do
    cur ← element m it
    same ← same_user cur user
    done (m, runs (if same then tests user text it else finds user text (next it)))

  abbrev pub show_next : Shared c → Option Bytes → Pointer → Bool → Outcome (Shared c × Free)
  show_next m report it true = done (m, finished report)
  show_next m report it false = do
    cur ← element m it
    done (write_line m (show_row cur), runs (shows_row report (next it)))

  -- A round of the loop of `calculat_work_time`, on `cur->sec >= 60`.
  abbrev pub carry_next : Shared c → Pointer → UserNode → Bool → Shared c × Free
  carry_next m it cur true = (store_at m it (carry_minute cur), runs (carries it))
  carry_next m it cur false = (m, waits (totals it))

  -- A step at a place outside of the sections.
  unfoldable pub step : Point → Shared c → Outcome (Shared c × Free)
  step (starts query now) m = do
    len ← strlen query
    tmp ← new_name len
    done (m, waits (copies_name tmp query now))
  step (named tmp i rest now) m = do
    name ← end_name tmp i
    done (m, waits (skips_key name rest now))
  step (numbered name number now) m = do
    id ← c_text number
    done (m, waits (reads_clock name id now))
  step (begins user text) m = done (m, runs (finds user text (begin m)))
  step (finds user text it) m = do ended ← at_end m it; find_next m user text it ended
  step (ends user text) m = done (m, runs (tests user text (end m)))
  step (tests user text it) m = do ended ← at_end m it; done (m, is_found user text it ended)
  step (leaves text it) m = do
    prev ← element m it
    done (store_at m it (record prev { end_time = c.mktime m.tm }), runs (leaves_at text it))
  step (leaves_at text it) m = do
    prev ← element m it
    done (store_at m it (record prev { leave_time = text }), runs (works it))
  step (works it) m = do
    prev ← element m it
    sec ← to_int (prev.sec +ℤ difftime prev.end_time prev.start_time)
    done (store_at m it (record prev { sec = sec }), runs (carries it))
  step (carries it) m = do cur ← element m it; done (carry_next m it cur (leb_ℤ (pos 60) cur.sec))
  step (writes n it total time) m = do
    cur ← element m it
    key ← field n cur
    buf ← field_text key
    done (m, waits (appends n it total time buf))
  step (reports report) m = done (m, waits (inserts report))
  step (shows report) m = done (write_line m show_head, runs (shows_row report (begin m)))
  step (shows_row report it) m = do ended ← at_end m it; show_next m report it ended

  -- The body of a section, and the place behind it.
  unfoldable pub enter : Section → Shared c → Outcome (Shared c × Point)
  enter (copies_name tmp query now) m = do
    copied ← copy_name tmp query
    done (m, named copied.0 copied.1 copied.2 now)
  enter (skips_key name rest now) m = do number ← skip_key rest; done (m, numbered name number now)
  enter (reads_clock name id now) m =
      let (tm, local_time) = get_time c now in
      done (record m { tm = tm }, begins (buynode name id) local_time)
  enter (counts user text) m = done (count_user m, ends user text)
  enter (signs_in user text) m =
      let new : UserNode = record user { start_time = c.mktime m.tm; arrive_time = text } in
      done (push_back m new, shows none)
  enter (totals it) m = do prev ← element m it; done (m, writes 0 it (get_total_string prev) [])
  enter (appends n it total time buf) m = done (m, append_field n it total time buf)
  enter (inserts report) m = done (m, shows (some report))
