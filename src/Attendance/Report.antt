-- ===== src/Attendance/Report.antt =====
-- server/server_http.h: `int_to_str`, `int_to_string` and `get_total_string`, the texts of a
-- record of attendance, and the decimal conversion of `sprintf`.
pub mod Laws
use face_perception.Common.{ℕ, zero, suc, ◌+◌, ◌/◌, ◌%◌, Bytes, [], ◌∷◌, ◌++◌, ltb, if◌then◌else◌}
use face_perception.Common.Int.{ℤ, pos, negsuc}
use face_perception.Outcome.{Outcome, done, spins, ◌>>=◌}
use face_perception.Memory.{zeros, write, c_text}
use face_perception.Attendance.Node.{UserNode}
use face_perception.Attendance.WorkTime.{to_int}

abbrev pub int_to_str_size : ℕ
int_to_str_size = 255

-- The digits of a number below 10 ^ fuel, before those in `out`.
unfoldable pub digits : ℕ → ℕ → Bytes → Bytes
digits zero n out = out
digits (suc fuel) n out =
    let rest = digits fuel (n / 10) ((b'0' + n % 10) ∷ out) in
    if ltb n 10 then (b'0' + n) ∷ out else rest

-- `%d`: an `int` has ten digits at most.
unfoldable pub decimal : ℤ → Bytes
unfolding digits
decimal (pos n) = digits 10 n []
decimal (negsuc n) = b'-' ∷ digits 10 (suc n) []

unfoldable pub int_to_str : ℤ → Bytes → Outcome Bytes
unfolding decimal
int_to_str key buf = write buf 0 (decimal key ++ 0 ∷ [])

-- One field: the array is zeroed and written, and its text is what `tmp += buf` appends.
unfoldable pub field_text : ℤ → Outcome Bytes
unfolding int_to_str
field_text key = do buf ← int_to_str key (zeros int_to_str_size); c_text buf

-- The time worked, as days:hours:minutes:seconds. `(int)cur->data` is undefined out of range.
unfoldable pub int_to_string : UserNode → Outcome Bytes
unfolding field_text
int_to_string cur = do
  days ← to_int (pos cur.days)
  d ← field_text days
  h ← field_text (pos cur.hour)
  m ← field_text (pos cur.min)
  s ← field_text cur.sec
  done (d ++ (b':' ∷ (h ++ (b':' ∷ (m ++ (b':' ∷ s))))))

unfoldable pub get_total_string : UserNode → Bytes
get_total_string cur =
    cur.name
    ++ (b' ' ∷ (cur.id ++ (b' ' ∷ (cur.arrive_time ++ (b' ' ∷ (cur.leave_time ++ b' ' ∷ []))))))
