-- ===== src/Attendance/WorkTime/Laws.antt =====
-- `calculat_work_time` ends, loses no second and leaves minutes, hours and seconds in range.
use face_perception.Common.{ℕ, zero, suc, ◌+◌, ◌-◌, ◌*◌, ◌≤◌, ◌<◌, ◌≡◌, refl, ap, arith}
use native.Mathlib.Decide.{dec_le}
use face_perception.Common.Int.{
  ℤ, pos, negsuc, pos_part, neg_part, ◌+ℤ◌, ◌≤ℤ◌, +ℤ_parts, eq_of_parts,
}
use face_perception.Outcome.{done, fault, int_overflow}
use face_perception.Attendance.Node.{UserNode}
use face_perception.Attendance.WorkTime.{
  to_int, difftime, carry_minute, carry_seconds, calculat_work_time,
}

-- The whole minutes, hours and days of a record, in seconds.
abbrev pub carried : UserNode → ℕ
carried n = 60 * n.min + 3600 * n.hour + 28800 * n.days

-- All the time of a record, in seconds.
abbrev pub total : UserNode → ℤ
total n = n.sec +ℤ pos (carried n)

-- Minutes and hours are below a full hour and a full day.
pub record IsCarried (n : UserNode) : Type 0 where
  pub min_lt : n.min < 60
  pub hour_lt : n.hour < 8

-- The fields that the calculation leaves alone.
pub record SameVisit (n m : UserNode) : Type 0 where
  pub same_name : m.name ≡ n.name
  pub same_id : m.id ≡ n.id
  pub same_arrive : m.arrive_time ≡ n.arrive_time
  pub same_leave : m.leave_time ≡ n.leave_time
  pub same_start : m.start_time ≡ n.start_time
  pub same_end : m.end_time ≡ n.end_time

pub carry_minute-IsCarried : {n : UserNode} → IsCarried n → IsCarried (carry_minute n)
unfolding carry_minute
carry_minute-IsCarried v = ground arith

pub carry_minute-SameVisit : (n : UserNode) → SameVisit n (carry_minute n)
unfolding carry_minute
carry_minute-SameVisit n = ground arith

carry_minute_carried : {n : UserNode} → IsCarried n → carried (carry_minute n) ≡ carried n + 60
unfolding carry_minute
carry_minute_carried v = ground arith

pub carry_minute_sec :
    (n : UserNode) (s : ℕ) → n.sec ≡ pos s → 60 ≤ s → (carry_minute n).sec ≡ pos (s - 60)
unfolding carry_minute
carry_minute_sec n s e h = ground arith

-- `m` is `n` with its whole minutes carried over and nothing lost.
pub record Settles (n m : UserNode) : Type 0 where
  pub is_carried : IsCarried m
  pub sec_lt : pos_part m.sec < 60
  pub same_neg : neg_part m.sec ≡ neg_part n.sec
  pub same_total : pos_part m.sec + carried m ≡ pos_part n.sec + carried n
  pub same_visit : SameVisit n m

pub SameVisit-trans : {a b c : UserNode} → SameVisit a b → SameVisit b c → SameVisit a c
SameVisit-trans p q = ground arith

pub SameVisit-refl : (n : UserNode) → SameVisit n n
SameVisit-refl n = ground arith

Settles-round :
    {n m : UserNode} (s : ℕ)
    → IsCarried n
    → n.sec ≡ pos s
    → 60 ≤ s
    → Settles (carry_minute n) m
    → Settles n m
Settles-round {n} {m} s v e h t = record {
  is_carried = t.is_carried;
  sec_lt = t.sec_lt;
  same_neg = ground (arith, carry_minute_sec n s e h, t.same_neg);
  same_total = ground (arith, carry_minute_sec n s e h, carry_minute_carried v, t.same_total);
  same_visit = SameVisit-trans (carry_minute-SameVisit n) t.same_visit;
}

-- The loop ends, whatever it starts from, once it is given a round for each second.
pub carry_seconds_lem :
    (fuel : ℕ) (z : ℤ) (n : UserNode)
    → n.sec ≡ z
    → pos_part z < fuel
    → IsCarried n
    → (m : UserNode) × (carry_seconds fuel n ≡ done m) × Settles n m
unfolding carry_seconds
carry_seconds_lem zero z n e lt v = elim lt [ ]
carry_seconds_lem (suc fuel) (negsuc k) n e lt v = (
  n,
  ground arith,
  record {
    is_carried = v;
    sec_lt = ground arith;
    same_neg = refl;
    same_total = refl;
    same_visit = SameVisit-refl n;
  },
)
carry_seconds_lem (suc fuel) (pos s) n e lt v = elim (dec_le 60 s) [
  | yes h ↦
      let (m, r, t) =
        carry_seconds_lem fuel (pos (s - 60)) (carry_minute n) (carry_minute_sec n s e h)
          (omega arith) (carry_minute-IsCarried v) in
      (m, ground arith, Settles-round s v e h t)
  | no h ↦ (
    n,
    ground arith,
    record {
      is_carried = v;
      sec_lt = ground arith;
      same_neg = refl;
      same_total = refl;
      same_visit = SameVisit-refl n;
    },
  )
]

-- The values of an `int`.
pub record IsInt (z : ℤ) : Type 0 where
  pub at_least : negsuc 2147483647 ≤ℤ z
  pub at_most : z ≤ℤ pos 2147483647

pub to_int_lem : (z : ℤ) → IsInt z → to_int z ≡ done z
unfolding to_int
to_int_lem z h = ground arith

pub to_int_outside : (z : ℤ) → ¬ (IsInt z) → to_int z ≡ fault int_overflow
unfolding to_int
to_int_outside z h = ground (
  arith,
  λ (a : negsuc 2147483647 ≤ℤ z) (b : z ≤ℤ pos 2147483647).
      h (record { at_least = a; at_most = b }),
)

-- The seconds that one call adds.
abbrev pub stay : UserNode → ℤ
stay n = n.sec +ℤ difftime n.end_time n.start_time

-- What a call makes of `n`: the stay is added to the time worked, and every part is in range.
pub record Works (n m : UserNode) : Type 0 where
  pub is_carried : IsCarried m
  pub sec_lt : pos_part m.sec < 60
  pub adds : total m ≡ total n +ℤ difftime n.end_time n.start_time
  pub days_le : 28800 * m.days ≤ pos_part (stay n) + carried n
  pub same_visit : SameVisit n m

adds_stay :
    (n m : UserNode) (d z : ℤ)
    → z ≡ n.sec +ℤ d
    → neg_part m.sec ≡ neg_part z
    → pos_part m.sec + carried m ≡ pos_part z + carried n
    → total m ≡ total n +ℤ d
adds_stay n m d z e neg sum = eq_of_parts _ _ (
    omega (
      arith,
      ap pos_part e,
      ap neg_part e,
      +ℤ_parts m.sec (pos (carried m)),
      +ℤ_parts n.sec (pos (carried n)),
      +ℤ_parts (total n) d,
      +ℤ_parts n.sec d,
    ))

Settles-Works : (n m : UserNode) (z : ℤ) → z ≡ stay n → Settles (record n { sec = z }) m → Works n m
Settles-Works n m z e t = record {
  is_carried = t.is_carried;
  sec_lt = t.sec_lt;
  adds = adds_stay n m (difftime n.end_time n.start_time) z e t.same_neg t.same_total;
  days_le = let p : pos_part z ≡ pos_part (stay n) = ap pos_part e in omega (arith, t.same_total);
  same_visit = ground (arith, t.same_visit);
}

-- The time worked grows by the time from `start_time` to `end_time`, no second is lost, and
-- afterwards there are fewer than 60 seconds, 60 minutes and 8 hours beside the days.
pub calculat_work_time-Works :
    (n : UserNode)
    → IsCarried n
    → IsInt (stay n)
    → (m : UserNode) × (calculat_work_time n ≡ done m) × Works n m
unfolding calculat_work_time
calculat_work_time-Works n v i =
    let (m, r, t) =
      carry_seconds_lem (suc (pos_part (stay n))) (stay n) (record n { sec = stay n }) refl
        (omega arith) (record { min_lt = v.min_lt; hour_lt = v.hour_lt }) in
    (m, rw (to_int_lem (stay n) i) r, Settles-Works n m (stay n) refl t)

-- Outside the range of `int` the addition is undefined.
pub calculat_work_time_overflow :
    (n : UserNode) → ¬ (IsInt (stay n)) → calculat_work_time n ≡ fault int_overflow
unfolding calculat_work_time
calculat_work_time_overflow n h = rw (to_int_outside (stay n) h)
