-- ===== src/Attendance/WorkTime/Done.antt =====
-- What is known of a record after `calculat_work_time` has returned it.
use face_perception.Common.{ℕ, zero, suc, ◌≡◌, subst, ◌∙◌, sym, inl, inr, arith, Bool-cases}
use face_perception.Common.Int.{ℤ, pos, pos_part, leb_ℤ}
use face_perception.Outcome.{done, >>=-eq-done, done-injective}
use face_perception.Attendance.Node.{UserNode}
use face_perception.Attendance.WorkTime.{to_int, carry_minute, carry_seconds, calculat_work_time}
use face_perception.Attendance.WorkTime.Laws.{
  IsCarried, IsInt, SameVisit, SameVisit-trans, SameVisit-refl, carry_minute-SameVisit, Works, stay,
  calculat_work_time-Works,
}

to_int_done : {z y : ℤ} → to_int z ≡ done y → IsInt z
unfolding to_int
to_int_done h = record { at_least = ground arith; at_most = ground arith }

carry_seconds-SameVisit :
    (fuel : ℕ) (n : UserNode) {m : UserNode} → carry_seconds fuel n ≡ done m → SameVisit n m
unfolding carry_seconds
carry_seconds-SameVisit zero n h = cc
carry_seconds-SameVisit (suc fuel) n {m} h = elim (Bool-cases (leb_ℤ (pos 60) n.sec)) [
  | inl more ↦
      SameVisit-trans (carry_minute-SameVisit n)
        (carry_seconds-SameVisit fuel (carry_minute n) (rw more at h))
  | inr less ↦ ground (arith, SameVisit-refl n)
]

-- Names and times are left alone.
pub calculat_work_time-SameVisit :
    (n : UserNode) {m : UserNode} → calculat_work_time n ≡ done m → SameVisit n m
unfolding calculat_work_time
calculat_work_time-SameVisit n {m} h =
    let (sec, e, later) = >>=-eq-done (to_int (stay n)) _ h in
    ground (arith, carry_seconds-SameVisit (suc (pos_part sec)) (record n { sec = sec }) later)

in_range : (n : UserNode) {m : UserNode} → calculat_work_time n ≡ done m → IsInt (stay n)
unfolding calculat_work_time
in_range n h = let (sec, e, later) = >>=-eq-done (to_int (stay n)) _ h in to_int_done e

-- A result means that nothing overflowed.
pub calculat_work_time_done :
    (n : UserNode) {m : UserNode} → IsCarried n → calculat_work_time n ≡ done m → Works n m
calculat_work_time_done n {m} v h =
    let (m', r, w) = calculat_work_time-Works n v (in_range n h) in
    subst (Works n) (done-injective (sym r ∙ h)) w
