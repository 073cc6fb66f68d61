-- ===== src/Attendance/Roster.antt =====
-- server/server_http.h: the members `size` and `v` of `server_http`, `get_time`, `find_id` and
-- `send_vector`. The lines for the console are left out, but for the report of a departure, and so
-- is the mutex: these are the calls of one thread.
pub mod Lookup
pub mod Find
pub mod Visits
pub mod Invariant
pub mod History
pub mod Hours
pub mod Total
pub mod Ledger
use face_perception.Common.{
  ℕ, ◌+◌, ◌%◌, ◌^◌, Bool, true, false, Bytes, List, [], ◌∷◌, ◌++◌, Option, none, some,
  if◌then◌else◌,
}
use face_perception.Outcome.{Outcome, done, ◌>>=◌}
use face_perception.Memory.{strlen, str_eq}
use face_perception.Attendance.Node.{UserNode, buynode}
use face_perception.Attendance.WorkTime.{calculat_work_time}
use face_perception.Attendance.Report.{get_total_string, int_to_string}
use face_perception.Attendance.Query.{get_string}

-- The calendar of the C library: the local time of a `time_t`, the `time_t` of a local time, and
-- its text in the format "%Y.%m.%d %X %A".
pub record Calendar : Type 1 where
  pub Tm : Type 0
  pub localtime : ℕ → Tm
  pub mktime : Tm → ℕ
  pub strftime : Tm → Bytes

pub record Roster : Type 0 where
  pub size : ℕ
  pub v : List UserNode

abbrev pub new_roster : Roster
new_roster = record { size = 0; v = [] }

-- An iterator that is not `v.end()`: the elements before it, the one it points to, and the rest.
pub record Iterator : Type 0 where
  pub before : List UserNode
  pub cur : UserNode
  pub after : List UserNode

-- `s.c_str()`
abbrev pub c_str : Bytes → Bytes
c_str s = s ++ 0 ∷ []

-- The test in the loop of `find_id`; `&&` compares the names only if the numbers agree.
unfoldable pub same_user : UserNode → UserNode → Outcome Bool
same_user cur head = do
  same_id ← str_eq (c_str cur.id) (c_str head.id)
  if same_id then str_eq (c_str cur.name) (c_str head.name) else done false

-- The loop of `find_id`, from the iterator between `before` and the rest of `v`.
unfoldable pub find_loop : List UserNode → List UserNode → UserNode → Outcome (Option Iterator)
find_loop before [] head = done none
find_loop before (cur ∷ after) head =
    let later = find_loop (before ++ cur ∷ []) after head in
    (same_user cur head >>= λ same.
    if same then done (some (record { before = before; cur = cur; after = after })) else later)

-- `size` counts a new user before it is stored; a `size_t` has 32 bits here.
abbrev pub found : Roster → Option Iterator → Option Iterator × Roster
found r (some it) = (some it, r)
found r none = (none, record r { size = (r.size + 1) % 2 ^ 32 })

unfoldable pub find_id : Roster → UserNode → Outcome (Option Iterator × Roster)
find_id r head = do it ← find_loop [] r.v head; done (found r it)

module _ (c : Calendar) where
  -- A user who has signed in before: the record of the departure, and the report of it.
  unfoldable pub sign_out : c.Tm → UserNode → Outcome (UserNode × Bytes)
  sign_out time prev = do
    cur ←
        calculat_work_time (record prev { end_time = c.mktime time; leave_time = c.strftime time })
    total_time ← int_to_string cur
    done (cur, get_total_string cur ++ total_time)

  -- A new user.
  abbrev pub sign_in : c.Tm → UserNode → UserNode
  sign_in time tmp = record tmp { start_time = c.mktime time; arrive_time = c.strftime time }

  -- The two branches behind `find_id`.
  abbrev pub store : c.Tm → UserNode → Option Iterator × Roster → Outcome (Roster × Option Bytes)
  store time tmp (some it, r) = do
    departure ← sign_out time it.cur
    done (record r { v = it.before ++ departure.0 ∷ it.after }, some departure.1)
  store time tmp (none, r) = done (record r { v = r.v ++ sign_in time tmp ∷ [] }, none)

  -- `send_vector` from the name and number on, with the local time at that moment.
  unfoldable pub record_visit : Bytes → Bytes → c.Tm → Roster → Outcome (Roster × Option Bytes)
  unfolding find_id
  record_visit name id time r = do it ← find_id r (buynode name id); store time (buynode name id) it

  -- `send_vector(query)` at the time `now`: the roster afterwards, and the report, if any.
  unfoldable pub send_vector : Bytes → ℕ → Roster → Outcome (Roster × Option Bytes)
  send_vector query now r = do
    len ← strlen query
    user ← get_string query len
    record_visit user.0 user.1 (c.localtime now) r
