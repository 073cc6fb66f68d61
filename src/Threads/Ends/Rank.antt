-- ===== src/Threads/Ends/Rank.antt =====
-- server/server_http.h: how many moves a thread has still to make at most, if `v` never has more
-- than `n` elements, but for the rounds of `calculat_work_time` for the seconds that the records have
-- already. A departure adds at most 2147483647 seconds to them, since the sum is an `int`.
use face_perception.Common.Int.{pos_part}
use face_perception.Attendance.Node.{UserNode}
use face_perception.Common.{ℕ, ◌+◌, ◌-◌, ◌*◌, ◌≤◌, arith}
use face_perception.Threads.Places.{
  Section, copies_name, skips_key, reads_clock, counts, signs_in, totals, appends, inserts, Point,
  starts, named, numbered, begins, finds, ends, tests, leaves, leaves_at, works, carries, writes,
  reports, shows, shows_row, Free, runs, waits, finished, Pc, outside, inside, unlocks,
}

-- The seconds of a record that the loop of `calculat_work_time` may carry.
abbrev pub secs_of : UserNode → ℕ
secs_of n = pos_part n.sec

abbrev pub rank_at : ℕ → Point → ℕ
rank_at n (starts query now) = 2 * n + 2147483695
rank_at n (named tmp i rest now) = 2 * n + 2147483691
rank_at n (numbered name number now) = 2 * n + 2147483687
rank_at n (begins user text) = 2 * n + 2147483683 + secs_of user
rank_at n (finds user text it) = (n - it.index) + n + 2147483682 + secs_of user
rank_at n (ends user text) = n + 2147483678 + secs_of user
rank_at n (tests user text it) = n + 2147483677 + secs_of user
rank_at n (leaves text it) = n + 2147483676
rank_at n (leaves_at text it) = n + 2147483675
rank_at n (works it) = n + 2147483674
rank_at n (carries it) = n + 26
rank_at n (writes k it total time) = n + 10 + 4 * (3 - k)
rank_at n (reports report) = n + 6
rank_at n (shows report) = n + 2
rank_at n (shows_row report it) = (n - it.index) + 1

-- Behind the section, once the mutex is free again.
abbrev pub rank_behind : ℕ → Section → ℕ
rank_behind n (copies_name tmp query now) = 2 * n + 2147483691
rank_behind n (skips_key name rest now) = 2 * n + 2147483687
rank_behind n (reads_clock name id now) = 2 * n + 2147483683
rank_behind n (counts user text) = n + 2147483678 + secs_of user
rank_behind n (signs_in user text) = n + 2 + secs_of user
rank_behind n (totals it) = n + 22
rank_behind n (appends k it total time buf) = n + 6 + 4 * (3 - k)
rank_behind n (inserts report) = n + 2

abbrev pub rank_free : ℕ → Free → ℕ
rank_free n (runs p) = rank_at n p
rank_free n (waits k) = rank_behind n k + 3
rank_free n (finished report) = 0

abbrev pub rank : ℕ → Pc → ℕ
rank n (outside f) = rank_free n f
rank n (inside k) = rank_behind n k + 2
rank n (unlocks p) = rank_at n p + 1

-- 1 for a thread that may still store a record.
abbrev pub pushes_at : Point → ℕ
pushes_at (starts query now) = 1
pushes_at (named tmp i rest now) = 1
pushes_at (numbered name number now) = 1
pushes_at (begins user text) = 1
pushes_at (finds user text it) = 1
pushes_at (ends user text) = 1
pushes_at (tests user text it) = 1
pushes_at _ = 0

abbrev pub pushes_in : Section → ℕ
pushes_in (copies_name tmp query now) = 1
pushes_in (skips_key name rest now) = 1
pushes_in (reads_clock name id now) = 1
pushes_in (counts user text) = 1
pushes_in (signs_in user text) = 1
pushes_in _ = 0

abbrev pub pushes_free : Free → ℕ
pushes_free (runs p) = pushes_at p
pushes_free (waits k) = pushes_in k
pushes_free (finished report) = 0

abbrev pub pushes : Pc → ℕ
pushes (outside f) = pushes_free f
pushes (inside k) = pushes_in k
pushes (unlocks p) = pushes_at p

rank_at_mono : (n n' : ℕ) (p : Point) → n ≤ n' → rank_at n p ≤ rank_at n' p
rank_at_mono n n' (starts query now) h = omega arith
rank_at_mono n n' (named tmp i rest now) h = omega arith
rank_at_mono n n' (numbered name number now) h = omega arith
rank_at_mono n n' (begins user text) h = omega arith
rank_at_mono n n' (finds user text it) h = omega arith
rank_at_mono n n' (ends user text) h = omega arith
rank_at_mono n n' (tests user text it) h = omega arith
rank_at_mono n n' (leaves text it) h = omega arith
rank_at_mono n n' (leaves_at text it) h = omega arith
rank_at_mono n n' (works it) h = omega arith
rank_at_mono n n' (carries it) h = omega arith
rank_at_mono n n' (writes k it total time) h = omega arith
rank_at_mono n n' (reports report) h = omega arith
rank_at_mono n n' (shows report) h = omega arith
rank_at_mono n n' (shows_row report it) h = omega arith

rank_behind_mono : (n n' : ℕ) (k : Section) → n ≤ n' → rank_behind n k ≤ rank_behind n' k
rank_behind_mono n n' (copies_name tmp query now) h = omega arith
rank_behind_mono n n' (skips_key name rest now) h = omega arith
rank_behind_mono n n' (reads_clock name id now) h = omega arith
rank_behind_mono n n' (counts user text) h = omega arith
rank_behind_mono n n' (signs_in user text) h = omega arith
rank_behind_mono n n' (totals it) h = omega arith
rank_behind_mono n n' (appends j it total time buf) h = omega arith
rank_behind_mono n n' (inserts report) h = omega arith

pub rank_mono : (n n' : ℕ) (pc : Pc) → n ≤ n' → rank n pc ≤ rank n' pc
rank_mono n n' (outside (runs p)) h = rank_at_mono n n' p h
rank_mono n n' (outside (waits k)) h = omega (arith, rank_behind_mono n n' k h)
rank_mono n n' (outside (finished report)) h = omega arith
rank_mono n n' (inside k) h = omega (arith, rank_behind_mono n n' k h)
rank_mono n n' (unlocks p) h = omega (arith, rank_at_mono n n' p h)
