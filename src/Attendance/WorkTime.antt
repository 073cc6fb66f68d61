-- ===== src/Attendance/WorkTime.antt =====
-- server/server_http.h: `calculat_work_time`, which adds the time since the arrival to the time
-- worked so far. A day of work has eight hours.
pub mod Laws
pub mod Done
pub mod Formula
use face_perception.Common.{ℕ, zero, suc, ◌+◌, ◌-◌, Bool, ◌&&◌, leb, if◌then◌else◌}
use face_perception.Common.Int.{ℤ, pos, negsuc, pos_part, sub_ℕ, ◌+ℤ◌, ◌-ℤ◌, leb_ℤ}
use face_perception.Outcome.{Outcome, done, fault, spins, int_overflow, ◌>>=◌}
use face_perception.Attendance.Node.{UserNode}

-- The value of an `int` after a conversion or a sum, which is undefined out of range.
unfoldable pub to_int : ℤ → Outcome ℤ
to_int z =
    if leb_ℤ (negsuc 2147483647) z && leb_ℤ z (pos 2147483647) then done z else fault int_overflow

-- `difftime(end, start)`, a whole number of seconds.
abbrev pub difftime : ℕ → ℕ → ℤ
difftime end start = sub_ℕ end start

-- The two `if`s of the loop's body, in their order.
unfoldable pub carry_minutes : UserNode → UserNode
carry_minutes cur =
    if leb 60 cur.min then record cur { hour = cur.hour + 1; min = cur.min - 60 } else cur

unfoldable pub carry_hours : UserNode → UserNode
carry_hours cur =
    if leb 8 cur.hour then record cur { days = cur.days + 1; hour = cur.hour - 8 } else cur

-- The body of the loop, up to `sec -= 60`.
unfoldable pub carry_minute : UserNode → UserNode
unfolding carry_minutes carry_hours ◌-ℤ◌
carry_minute cur =
    let after = carry_hours (carry_minutes (record cur { min = cur.min + 1 })) in
    record after { sec = after.sec -ℤ pos 60 }

-- `while (cur->sec >= 60)`.
unfoldable pub carry_seconds : ℕ → UserNode → Outcome UserNode
unfolding carry_minute
carry_seconds zero cur = spins
carry_seconds (suc fuel) cur =
    let rest = carry_seconds fuel (carry_minute cur) in
    if leb_ℤ (pos 60) cur.sec then rest else done cur

-- Each round takes 60 off `sec`, so `sec + 1` rounds are more than enough.
unfoldable pub calculat_work_time : UserNode → Outcome UserNode
calculat_work_time cur = do
  sec ← to_int (cur.sec +ℤ difftime cur.end_time cur.start_time)
  carry_seconds (suc (pos_part sec)) (record cur { sec = sec })
