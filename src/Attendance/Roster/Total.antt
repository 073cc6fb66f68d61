-- ===== src/Attendance/Roster/Total.antt =====
-- The calls of `send_vector` that return.
use face_perception.Common.{
  ℕ, ◌+◌, ◌*◌, ◌≤◌, ◌≡◌, ◌∙◌, inl, inr, Bytes, ◌∷◌, ◌++◌, Option, some, arith,
}
use face_perception.Common.Int.{pos_part}
use face_perception.Outcome.{done}
use face_perception.Memory.Laws.{IsText, strlen_lem}
use face_perception.Attendance.Node.{UserNode}
use face_perception.Attendance.Query.Laws.{
  IsTextWithout, query_text, query_text-IsText, without-IsText, get_string-query_text,
}
use face_perception.Attendance.WorkTime.Laws.{
  IsCarried, IsInt, stay, carried, calculat_work_time-Works,
}
use face_perception.Attendance.Report.{get_total_string}
use face_perception.Attendance.Report.Laws.{time_text, int_to_string_lem}
use face_perception.Attendance.Roster.{Calendar, Roster, sign_out, record_visit, send_vector}
use face_perception.Attendance.Roster.Lookup.{User, lookup, lookup-StandsIn, User-cases}
use face_perception.Attendance.Roster.Visits.{
  Updates, record_visit-Updates, record_visit-Lacks, record_visit-StandsIn,
}
use face_perception.Attendance.Roster.Invariant.{IsValid, All-at}

module _ (c : Calendar) where
  abbrev pub left : c.Tm → UserNode → UserNode
  left time n = record n { end_time = c.mktime time; leave_time = c.strftime time }

  -- The time that a departure adds is an `int`, and the days worked stay one.
  pub record HasRoom (time : c.Tm) (n : UserNode) : Type 0 where
    pub stay_fits : IsInt (stay (left time n))
    pub days_fit : pos_part (stay (left time n)) + carried n ≤ 28800 * 2147483647

  -- A departure returns, and its report ends in the time worked.
  sign_out_done :
      (time : c.Tm) (n : UserNode)
      → IsCarried n
      → HasRoom time n
      → (m : UserNode) × (sign_out c time n ≡ done (m, get_total_string m ++ time_text m))
  unfolding sign_out
  sign_out_done time n v room =
      let (m, e, w) =
        calculat_work_time-Works (left time n) (record { min_lt = v.min_lt; hour_lt = v.hour_lt })
          room.stay_fits in
      (
        m,
        rw (
          e,
          int_to_string_lem m (record {
            at_least = omega arith;
            at_most = omega (arith, w.days_le, room.days_fit);
          }),
        ),
      )

  record_visit_done :
      (u : User) (time : c.Tm) (r : Roster)
      → IsText u.name × IsText u.id
      → IsValid r
      → ((n : UserNode) → lookup u r.v ≡ some n → HasRoom time n)
      → (out : Roster × Option Bytes) × (record_visit c u.name u.id time r ≡ done out)
  record_visit_done u time r k v room = elim (User-cases u r.v) [
    | inl l ↦ (_, record_visit-Lacks c u time r k v.named l)
    | inr (before, cur, after, s) ↦
        let (m, e) =
          sign_out_done time cur (All-at IsCarried before after cur (rw s.splits at v.carried))
            (room cur (lookup-StandsIn s)) in
        (
          (record r { v = before ++ m ∷ after }, some (get_total_string m ++ time_text m)),
          record_visit-StandsIn c u time r k v.named s ∙ rw e,
        )
  ]

  -- On a well-formed roster a query of two fields is always recorded as a visit of the user whom it
  -- names, unless the user's time no longer fits the machine's integers.
  pub send_vector_done :
      (key name key' id rest : Bytes) (now : ℕ) (r : Roster)
      → IsTextWithout b'=' key
      → IsTextWithout b'&' name
      → IsTextWithout b'=' key'
      → IsText id
      → IsValid r
      → ((n : UserNode)
          → lookup (record { name = name; id = id }) r.v ≡ some n
          → HasRoom (c.localtime now) n)
      → (out : Roster × Option Bytes) × (send_vector c
            (query_text key name key' id ++ 0 ∷ rest)
            now
            r
          ≡ done out)
        × Updates c (record { name = name; id = id }) (c.localtime now) r.v out.0.v
  unfolding send_vector
  send_vector_done key name key' id rest now r hk hn hk' hi v room =
      let (out, e) =
        record_visit_done (record { name = name; id = id }) (c.localtime now) r
          (without-IsText b'&' name hn, hi) v room in
      (
        out,
        rw (
          strlen_lem (query_text key name key' id) rest
              (query_text-IsText key name key' id hk hn hk' hi),
          get_string-query_text key name key' id rest hk hn hk' hi,
          e,
        ),
        record_visit-Updates c (record { name = name; id = id }) (c.localtime now) r
            (without-IsText b'&' name hn, hi) v.named e,
      )
