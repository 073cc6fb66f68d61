-- ===== src/Attendance/Roster/Visits.antt =====
-- `send_vector` as an operation on the map from users to records, and what a history of calls
-- makes of one user's record.
use face_perception.Common.{
  ◌+◌, ◌%◌, ◌^◌, ◌≡◌, refl, subst, sym, ◌∙◌, inl, inr, Bytes, List, [], ◌∷◌, ◌++◌, Option, none,
  some, arith, if◌then◌else◌, All,
}
use face_perception.Outcome.{Outcome, done, ◌>>=◌, >>=-eq-done, done-injective}
use face_perception.Memory.Laws.{IsText}
use face_perception.Attendance.Node.{UserNode, buynode}
use face_perception.Attendance.WorkTime.{calculat_work_time}
use face_perception.Attendance.WorkTime.Done.{calculat_work_time-SameVisit}
use face_perception.Attendance.Report.{int_to_string}
use face_perception.Attendance.Roster.{Calendar, Roster, sign_out, sign_in, record_visit}
use face_perception.Attendance.Roster.Lookup.{
  User, user_of, is_of, Lacks, StandsIn, lookup, lookup-Lacks, lookup-append_new, lookup-replace,
  lookup-StandsIn, User-cases, is_of_iff,
}
use face_perception.Attendance.Roster.Find.{IsNamed, find_id-Lacks, find_id-StandsIn}

module _ (c : Calendar) where
  -- The record of a user after a visit: of an arrival if there was none, else of a departure.
  abbrev pub after_visit : User → c.Tm → Option UserNode → Outcome UserNode
  after_visit u time none = done (sign_in c time (buynode u.name u.id))
  after_visit u time (some n) = do departure ← sign_out c time n; done departure.0

  pub sign_out-user_of :
      (time : c.Tm) (n : UserNode) {d : UserNode × Bytes}
      → sign_out c time n ≡ done d
      → user_of d.0 ≡ user_of n
  unfolding sign_out
  sign_out-user_of time n {d} h =
      let left : UserNode = record n { end_time = c.mktime time; leave_time = c.strftime time } in
      let (m, e, later) = >>=-eq-done (calculat_work_time left) _ h in
      let (t, _, last) = >>=-eq-done (int_to_string m) _ later in
      ground (arith, calculat_work_time-SameVisit left e)

  -- What a call does to the map: one user's record becomes `n`.
  pub record Updates (u : User) (time : c.Tm) (v w : List UserNode) : Type 0 where
    pub new : UserNode
    pub visited : after_visit u time (lookup u v) ≡ done new
    pub same_user : user_of new ≡ u
    pub looks_up : (j : User) → lookup j w ≡ (if is_of j new then some new else lookup j v)

  pub record_visit-Lacks :
      (u : User) (time : c.Tm) (r : Roster)
      → IsText u.name × IsText u.id
      → All IsNamed r.v
      → Lacks u r.v
      → record_visit c u.name u.id time r
        ≡ done (
          record {
            size = (r.size + 1) % 2 ^ 32;
            v = r.v ++ sign_in c time (buynode u.name u.id) ∷ [];
          },
          none,
        )
  unfolding record_visit
  record_visit-Lacks u time r k named l = rw (find_id-Lacks r (buynode u.name u.id) k named l)

  pub record_visit-StandsIn :
      (u : User) (time : c.Tm) (r : Roster) {before after : List UserNode} {cur : UserNode}
      → IsText u.name × IsText u.id
      → All IsNamed r.v
      → StandsIn u r.v before cur after
      → record_visit c u.name u.id time r
        ≡ (sign_out c time cur >>= λ d. done (record r { v = before ++ d.0 ∷ after }, some d.1))
  unfolding record_visit
  record_visit-StandsIn u time r k named s = rw (find_id-StandsIn r (buynode u.name u.id) k named s)

  arrival-Updates :
      (u : User) (time : c.Tm) (v : List UserNode)
      → Lacks u v
      → Updates u time v (v ++ sign_in c time (buynode u.name u.id) ∷ [])
  arrival-Updates u time v l = record {
    new = sign_in c time (buynode u.name u.id);
    visited = rw (lookup-Lacks u v l);
    same_user = refl;
    looks_up = λ j. lookup-append_new j (sign_in c time (buynode u.name u.id)) v l;
  }

  departure-Updates :
      (u : User) (time : c.Tm) (v before after : List UserNode) (cur : UserNode)
      (d : UserNode × Bytes)
      → StandsIn u v before cur after
      → sign_out c time cur ≡ done d
      → Updates u time v (before ++ d.0 ∷ after)
  departure-Updates u time v before after cur d s e =
      let same : user_of d.0 ≡ user_of cur = sign_out-user_of time cur e in
      let of_u : user_of cur ≡ u = (is_of_iff u cur).0 s.is_cur in
      record {
        new = d.0;
        visited = rw (lookup-StandsIn s, e);
        same_user = same ∙ of_u;
        looks_up = λ j. rw s.splits (
            lookup-replace j before after cur d.0
              (subst (λ x. Lacks x before) (sym (same ∙ of_u)) s.lacks) (sym same));
      }

  -- A call that returns changes the record of the user who calls, and no other.
  pub record_visit-Updates :
      (u : User) (time : c.Tm) (r : Roster) {out : Roster × Option Bytes}
      → IsText u.name × IsText u.id
      → All IsNamed r.v
      → record_visit c u.name u.id time r ≡ done out
      → Updates u time r.v out.0.v
  record_visit-Updates u time r {out} k named h = elim (User-cases u r.v) [
    | inl l ↦
        subst (λ (o : Roster × Option Bytes). Updates u time r.v o.0.v)
          (done-injective (sym (record_visit-Lacks u time r k named l) ∙ h))
          (arrival-Updates u time r.v l)
    | inr (before, cur, after, s) ↦
        let (d, e, last) =
          >>=-eq-done (sign_out c time cur) _
            (sym (record_visit-StandsIn u time r k named s) ∙ h) in
        subst (λ (o : Roster × Option Bytes). Updates u time r.v o.0.v) (done-injective last)
          (departure-Updates u time r.v before after cur d s e)
  ]
