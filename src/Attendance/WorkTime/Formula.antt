-- ===== src/Attendance/WorkTime/Formula.antt =====
-- The loop of `calculat_work_time` divides: the result written with quotients and remainders.
use face_perception.Common.{ℕ, suc, ◌+◌, ◌/◌, ◌%◌, ◌≤◌, ◌≡◌, refl, sym, subst, ap, ◌∙◌, arith}
use face_perception.Common.Int.{pos, eq_of_parts}
use face_perception.Outcome.{done}
use face_perception.Attendance.Node.{UserNode}
use face_perception.Attendance.WorkTime.{calculat_work_time}
use face_perception.Attendance.WorkTime.Laws.{
  IsCarried, IsInt, SameVisit, Settles, stay, to_int_lem, carry_seconds_lem,
}

-- The record `n` with `s` seconds beside its whole minutes, hours and days.
abbrev pub divided : UserNode → ℕ → UserNode
divided n s =
    let mins = n.min + s / 60 in
    let hours = n.hour + mins / 60 in
    record n { sec = pos (s % 60); min = mins % 60; hour = hours % 8; days = n.days + hours / 8 }

record SameParts (n m : UserNode) (s : ℕ) : Type 0 where
  sec_eq : m.sec ≡ pos (s % 60)
  min_eq : m.min ≡ (n.min + s / 60) % 60
  hour_eq : m.hour ≡ (n.hour + (n.min + s / 60) / 60) % 8
  days_eq : m.days ≡ n.days + (n.hour + (n.min + s / 60) / 60) / 8

Settles-SameParts :
    (n m : UserNode) (s : ℕ) → Settles (record n { sec = pos s }) m → SameParts n m s
Settles-SameParts n m s t =
    let c = t.is_carried in
    record {
      sec_eq =
          eq_of_parts _ _ (omega (arith, t.same_neg, t.same_total, t.sec_lt, c.min_lt, c.hour_lt));
      min_eq = omega (arith, t.same_neg, t.same_total, t.sec_lt, c.min_lt, c.hour_lt);
      hour_eq = omega (arith, t.same_neg, t.same_total, t.sec_lt, c.min_lt, c.hour_lt);
      days_eq = omega (arith, t.same_neg, t.same_total, t.sec_lt, c.min_lt, c.hour_lt);
    }

SameParts-eq :
    (n m : UserNode) (s : ℕ)
    → SameVisit (record n { sec = pos s }) m
    → SameParts n m s
    → m ≡ divided n s
SameParts-eq n m s v p = cc

-- If the seconds and the stay come to `s`, the calculation returns, and carries the minutes of `s`,
-- the hours of those, and days of eight hours by division.
pub calculat_work_time-divided :
    (n : UserNode) (s : ℕ)
    → IsCarried n
    → stay n ≡ pos s
    → s ≤ 2147483647
    → calculat_work_time n ≡ done (divided n s)
unfolding calculat_work_time
calculat_work_time-divided n s v e le =
    let i : IsInt (stay n) =
      subst IsInt (sym e) (record { at_least = omega arith; at_most = omega arith }) in
    let (m, r, t) =
      carry_seconds_lem (suc s) (pos s) (record n { sec = pos s }) refl (omega arith)
        (record { min_lt = v.min_lt; hour_lt = v.hour_lt }) in
    rw (to_int_lem (stay n) i, e)
      (r ∙ ap done (SameParts-eq n m s t.same_visit (Settles-SameParts n m s t)))
