-- ===== src/Attendance/Roster/Hours.antt =====
-- The time worked that the roster shows for a user, as a sum over that user's visits.
use mathlib.Core.Path.{subst₂}
use face_perception.Common.{
  ℕ, ◌+◌, ◌-◌, ◌≤◌, ◌<◌, ◌≡◌, ◌≢◌, refl, subst, sym, ap, ◌∙◌, Bytes, List, [], ◌∷◌, none, some,
  arith,
}
use face_perception.Common.Int.{ℤ, pos, pos_part, ◌+ℤ◌}
use face_perception.Outcome.{done, >>=-eq-done, done-injective}
use face_perception.Attendance.Node.{UserNode, buynode}
use face_perception.Attendance.WorkTime.{difftime}
use face_perception.Attendance.WorkTime.Laws.{IsCarried, total}
use face_perception.Attendance.Roster.{Calendar, Roster, new_roster, sign_out, sign_in}
use face_perception.Attendance.Roster.Lookup.{User, lookup, lookup-Lacks}
use face_perception.Attendance.Roster.Visits.{after_visit}
use face_perception.Attendance.Roster.Invariant.{sign_out-Works, new_roster-IsValid}
use face_perception.Attendance.Roster.History.{run, own_times, after_visits, run-own_times}

-- Each departure adds the whole time since the arrival to `z`.
abbrev pub add_stays : ℕ → List ℕ → ℤ → ℤ
add_stays arrival [] z = z
add_stays arrival (t ∷ ts) z = add_stays arrival ts (z +ℤ difftime t arrival)

module _ (c : Calendar) (local : (t : ℕ) → c.mktime (c.localtime t) ≡ t) (u : User) where
  total-buynode : (time : c.Tm) → total (sign_in c time (buynode u.name u.id)) ≡ pos 0
  unfolding ◌+ℤ◌
  total-buynode time = refl

  departure_total :
      (t : ℕ) (n : UserNode) {d : UserNode × Bytes}
      → IsCarried n
      → sign_out c (c.localtime t) n ≡ done d
      → (total d.0 ≡ total n +ℤ difftime t n.start_time)
        × IsCarried d.0
        × (d.0.start_time ≡ n.start_time)
  departure_total t n v h =
      let w = sign_out-Works c (c.localtime t) n h v in
      (
        w.adds ∙ ap (λ x. total n +ℤ difftime x n.start_time) (local t),
        w.is_carried,
        w.same_visit.same_start,
      )

  departures_total :
      (ts : List ℕ) (n : UserNode) {m : UserNode}
      → IsCarried n
      → after_visits c u ts (some n) ≡ done (some m)
      → total m ≡ add_stays n.start_time ts (total n)
  departures_total [] n v h = ground arith
  departures_total (t ∷ ts) n {m} v h =
      let (k, e, later) = >>=-eq-done (after_visit c u (c.localtime t) (some n)) _ h in
      let (d, out, last) = >>=-eq-done (sign_out c (c.localtime t) n) _ e in
      let (sum, carried, start) = departure_total t n v out in
      let rest : total m ≡ add_stays d.0.start_time ts (total d.0) =
        departures_total ts d.0 carried (
          subst (λ x. after_visits c u ts (some x) ≡ done (some m)) (sym (done-injective last))
            later) in
      rest ∙ ap (λ x. add_stays x ts (total d.0)) start ∙ ap (add_stays n.start_time ts) sum

  -- After a first visit at `arrival` and further ones at `ts` the record holds the sum of the times
  -- from the arrival to each of the later visits.
  pub run-total :
      (calls : List (Bytes × ℕ)) (arrival : ℕ) (ts : List ℕ) {r : Roster} {n : UserNode}
      → run c calls new_roster ≡ done r
      → own_times u calls ≡ arrival ∷ ts
      → lookup u r.v ≡ some n
      → total n ≡ add_stays arrival ts (pos 0)
  run-total calls arrival ts {r} {n} h own there =
      let new = sign_in c (c.localtime arrival) (buynode u.name u.id) in
      let visits : after_visits c u (arrival ∷ ts) none ≡ done (some n) =
        subst (λ x. after_visits c u x none ≡ done (some n)) own
          (subst₂ (λ x y. after_visits c u (own_times u calls) x ≡ done y) (lookup-Lacks u [] tt)
            there (run-own_times c u calls new_roster new_roster-IsValid h)) in
      departures_total ts new (record { min_lt = omega arith; hour_lt = omega arith }) visits
      ∙ ap (λ x. add_stays x ts (total new)) (local arrival)
      ∙ ap (add_stays arrival ts) (total-buynode (c.localtime arrival))

add_stays_twice :
    (arrival first second : ℕ)
    → arrival ≤ first
    → arrival ≤ second
    → add_stays arrival (first ∷ second ∷ []) (pos 0) ≡ pos ((first - arrival) + (second - arrival))
unfolding ◌+ℤ◌
add_stays_twice arrival first second h k = ground arith

-- A user who comes once and is recorded as leaving twice is credited with more than the time from
-- the arrival to the last departure: the first stay is counted again.
pub run-total_twice :
    (c : Calendar)
    → ((t : ℕ) → c.mktime (c.localtime t) ≡ t)
    → (u : User) (calls : List (Bytes × ℕ)) (arrival first second : ℕ) {r : Roster} {n : UserNode}
    → run c calls new_roster ≡ done r
    → own_times u calls ≡ arrival ∷ first ∷ second ∷ []
    → lookup u r.v ≡ some n
    → arrival < first
    → first ≤ second
    → (total n ≡ pos ((first - arrival) + (second - arrival))) × (total n ≢ pos (second - arrival))
run-total_twice c local u calls arrival first second {r} {n} h own there lt le =
    let e : total n ≡ pos ((first - arrival) + (second - arrival)) =
      run-total c local u calls arrival (first ∷ second ∷ []) h own there
      ∙ add_stays_twice arrival first second (omega arith) (omega arith) in
    (e, λ same. absurd (omega (arith, ap pos_part (sym e ∙ same))))
