-- ===== src/Threads/Places.antt =====
-- server/server_http.h: the places in the code of `send_vector`.
use face_perception.Common.{ℕ, Bytes, Option}
use face_perception.Attendance.Node.{UserNode}

-- An iterator of `v`: the array it points into, and the index.
pub record Pointer : Type 0 where
  pub block : ℕ
  pub index : ℕ

-- The sections between `pthread_mutex_lock` and `pthread_mutex_unlock`, with the variables that the
-- thread still needs: in `get_string` (two), in `get_time`, in `find_id`, where a new user is
-- stored, in `get_total_string`, in `int_to_string` (four), and around the call of the database
-- that is commented out.
pub data Section : Type 0 where
  copies_name : Bytes → Bytes → ℕ → Section
  skips_key : Bytes → Bytes → ℕ → Section
  reads_clock : Bytes → Bytes → ℕ → Section
  counts : UserNode → Bytes → Section
  signs_in : UserNode → Bytes → Section
  totals : Pointer → Section
  appends : ℕ → Pointer → Bytes → Bytes → Bytes → Section
  inserts : Bytes → Section

-- The places outside of them.
pub data Point : Type 0 where
  starts : Bytes → ℕ → Point
  named : Bytes → ℕ → Bytes → ℕ → Point
  numbered : Bytes → Bytes → ℕ → Point
  finds : UserNode → Bytes → Pointer → Point
  begins : UserNode → Bytes → Point
  ends : UserNode → Bytes → Point
  tests : UserNode → Bytes → Pointer → Point
  leaves : Bytes → Pointer → Point
  leaves_at : Bytes → Pointer → Point
  works : Pointer → Point
  carries : Pointer → Point
  writes : ℕ → Pointer → Bytes → Bytes → Point
  reports : Bytes → Point
  shows : Option Bytes → Point
  shows_row : Option Bytes → Pointer → Point

-- Where a thread is that does not hold the mutex: at a place, waiting for the mutex, or at the end,
-- with the report of a departure, if any.
pub data Free : Type 0 where
  runs : Point → Free
  waits : Section → Free
  finished : Option Bytes → Free

-- A thread that holds it is before or behind the body of the section.
pub data Pc : Type 0 where
  outside : Free → Pc
  inside : Section → Pc
  unlocks : Point → Pc
