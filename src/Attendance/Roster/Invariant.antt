-- ===== src/Attendance/Roster/Invariant.antt =====
-- The roster is well formed, and stays so under every call.
use face_perception.Common.{
  ℕ, ◌+◌, ◌%◌, ◌^◌, ◌≡◌, refl, subst, sym, ap, ◌∙◌, inl, inr, false, Bytes, List, [], ◌∷◌, ◌++◌,
  Option, arith, All, All-append, length, length-append, Bool-cases, true≢false,
}
use face_perception.Outcome.{done, >>=-eq-done, done-injective}
use face_perception.Memory.{strlen}
use face_perception.Memory.Laws.{IsText}
use face_perception.Attendance.Node.{UserNode, buynode}
use face_perception.Attendance.Query.{get_string}
use face_perception.Attendance.Query.Laws.{get_string-IsText}
use face_perception.Attendance.WorkTime.{calculat_work_time}
use face_perception.Attendance.WorkTime.Laws.{IsCarried, Works}
use face_perception.Attendance.WorkTime.Done.{calculat_work_time_done}
use face_perception.Attendance.Report.{int_to_string}
use face_perception.Attendance.Roster.{
  Calendar, Roster, new_roster, sign_out, sign_in, record_visit, send_vector,
}
use face_perception.Attendance.Roster.Lookup.{
  User, user_of, is_of, Lacks, IsDistinct, User-cases, is_of_iff, is_of-other,
}
use face_perception.Attendance.Roster.Find.{IsNamed}
use face_perception.Attendance.Roster.Visits.{
  record_visit-Lacks, record_visit-StandsIn, sign_out-user_of,
}

-- Names and numbers are C strings, no user has two records, minutes and hours are in range, and
-- `size` counts the records modulo 2 ^ 32.
pub record IsValid (r : Roster) : Type 0 where
  pub named : All IsNamed r.v
  pub distinct : IsDistinct r.v
  pub carried : All IsCarried r.v
  pub counted : r.size ≡ length r.v % 2 ^ 32

All-replace {κ} :
    (P : UserNode → Type κ) (before after : List UserNode) (cur new : UserNode)
    → All P (before ++ cur ∷ after)
    → (P cur → P new)
    → All P (before ++ new ∷ after)
All-replace P [] after cur new h k = (k h.0, h.1)
All-replace P (n ∷ before) after cur new h k = (h.0, All-replace P before after cur new h.1 k)

pub All-at {κ} :
    (P : UserNode → Type κ) (before after : List UserNode) (cur : UserNode)
    → All P (before ++ cur ∷ after)
    → P cur
All-at P [] after cur h = h.0
All-at P (n ∷ before) after cur h = All-at P before after cur h.1

-- Two records are of one user or not, whichever is asked.
is_of_symm : (n w : UserNode) → is_of (user_of w) n ≡ false → is_of (user_of n) w ≡ false
is_of_symm n w h = elim (Bool-cases (is_of (user_of n) w)) [
  | inl same ↦
      absurd (
        true≢false (sym ((is_of_iff (user_of w) n).1 (sym ((is_of_iff (user_of n) w).0 same))) ∙ h))
  | inr other ↦ other
]

IsDistinct-append_new :
    (v : List UserNode) (w : UserNode)
    → IsDistinct v
    → Lacks (user_of w) v
    → IsDistinct (v ++ w ∷ [])
IsDistinct-append_new [] w h l = (tt, tt)
IsDistinct-append_new (n ∷ v) w h l = (
  All-append (λ m. is_of (user_of n) m ≡ false) v (w ∷ []) h.0 (is_of_symm n w l.0, tt),
  IsDistinct-append_new v w h.1 l.1,
)

IsDistinct-replace :
    (before after : List UserNode) (cur new : UserNode)
    → user_of new ≡ user_of cur
    → IsDistinct (before ++ cur ∷ after)
    → IsDistinct (before ++ new ∷ after)
IsDistinct-replace [] after cur new e h = (subst (λ u. Lacks u after) (sym e) h.0, h.1)
IsDistinct-replace (n ∷ before) after cur new e h = (
  All-replace (λ m. is_of (user_of n) m ≡ false) before after cur new h.0
      (λ apart. is_of-other (user_of n) new cur e ∙ apart),
  IsDistinct-replace before after cur new e h.1,
)

module _ (c : Calendar) where
  -- A departure adds the time since the arrival, and leaves the rest of the record in order.
  pub sign_out-Works :
      (time : c.Tm) (n : UserNode) {d : UserNode × Bytes}
      → sign_out c time n ≡ done d
      → IsCarried n
      → Works (record n { end_time = c.mktime time; leave_time = c.strftime time }) d.0
  unfolding sign_out
  sign_out-Works time n {d} h v =
      let left : UserNode = record n { end_time = c.mktime time; leave_time = c.strftime time } in
      let (m, e, later) = >>=-eq-done (calculat_work_time left) _ h in
      let (t, _, last) = >>=-eq-done (int_to_string m) _ later in
      let w = calculat_work_time_done left (record { min_lt = v.min_lt; hour_lt = v.hour_lt }) e in
      subst (λ (x : UserNode × Bytes). Works left x.0) (done-injective last) w

  arrival-IsValid :
      (u : User) (time : c.Tm) (r : Roster)
      → IsText u.name × IsText u.id
      → IsValid r
      → Lacks u r.v
      → IsValid (record {
        size = (r.size + 1) % 2 ^ 32;
        v = r.v ++ sign_in c time (buynode u.name u.id) ∷ [];
      })
  arrival-IsValid u time r k v l =
      let new : UserNode = sign_in c time (buynode u.name u.id) in
      record {
        named = All-append IsNamed r.v (new ∷ []) v.named (k, tt);
        distinct = IsDistinct-append_new r.v new v.distinct l;
        carried =
            All-append IsCarried r.v (new ∷ []) v.carried
              (record { min_lt = omega arith; hour_lt = omega arith }, tt);
        counted = omega (arith, length-append r.v (new ∷ []), v.counted);
      }

  departure-IsValid :
      (time : c.Tm) (r : Roster) (before after : List UserNode) (cur : UserNode)
      (d : UserNode × Bytes)
      → r.v ≡ before ++ cur ∷ after
      → sign_out c time cur ≡ done d
      → IsValid r
      → IsValid (record r { v = before ++ d.0 ∷ after })
  departure-IsValid time r before after cur d e out v =
      let same : user_of d.0 ≡ user_of cur = sign_out-user_of c time cur out in
      record {
        named =
            All-replace IsNamed before after cur d.0 (rw e at v.named)
              λ k. subst (λ (u : User). IsText u.name × IsText u.id) (sym same) k;
        distinct = IsDistinct-replace before after cur d.0 same (rw e at v.distinct);
        carried =
            All-replace IsCarried before after cur d.0 (rw e at v.carried)
              (λ k. (sign_out-Works time cur out k).is_carried);
        counted = omega (
          arith,
          length-append before (d.0 ∷ after),
          length-append before (cur ∷ after),
          ap length e,
          v.counted,
        );
      }

  pub record_visit-IsValid :
      (u : User) (time : c.Tm) (r : Roster) {out : Roster × Option Bytes}
      → IsText u.name × IsText u.id
      → IsValid r
      → record_visit c u.name u.id time r ≡ done out
      → IsValid out.0
  record_visit-IsValid u time r k v h = elim (User-cases u r.v) [
    | inl l ↦
        subst (λ (o : Roster × Option Bytes). IsValid o.0)
          (done-injective (sym (record_visit-Lacks c u time r k v.named l) ∙ h))
          (arrival-IsValid u time r k v l)
    | inr (before, cur, after, s) ↦
        let (d, e, last) =
          >>=-eq-done (sign_out c time cur) _
            (sym (record_visit-StandsIn c u time r k v.named s) ∙ h) in
        subst (λ (o : Roster × Option Bytes). IsValid o.0) (done-injective last)
          (departure-IsValid time r before after cur d s.splits e v)
  ]

  -- A call that returns keeps the roster well formed.
  pub send_vector-IsValid :
      (query : Bytes) (now : ℕ) (r : Roster) {out : Roster × Option Bytes}
      → IsValid r
      → send_vector c query now r ≡ done out
      → IsValid out.0
  unfolding send_vector
  send_vector-IsValid query now r v h =
      let (len, _, h1) = >>=-eq-done (strlen query) _ h in
      let (u, e, h2) = >>=-eq-done (get_string query len) _ h1 in
      record_visit-IsValid (record { name = u.0; id = u.1 }) (c.localtime now) r
        (get_string-IsText query len e) v h2

pub new_roster-IsValid : IsValid new_roster
new_roster-IsValid = record { named = tt; distinct = tt; carried = tt; counted = refl }
