-- ===== src/Tests/Attendance.antt =====
-- Runs of the attendance part, and its theorems at concrete inputs.
use face_perception.Common.{
  ℕ, ◌≡◌, ◌≢◌, refl, Bytes, List, [], ◌∷◌, ◌++◌, codes, some, none, arith, map, Option, equal,
}
use face_perception.Common.Int.{pos, ◌+ℤ◌}
use face_perception.Outcome.{done, fault, out_of_bounds}
use face_perception.Memory.{strlen, str_eq, c_text, zeros, write, put}
use face_perception.Attendance.Node.{UserNode, user_node}
use face_perception.Attendance.Query.{get_string, skip_key, copy_value, new_array}
use face_perception.Attendance.Query.Laws.{
  query_text, get_string-query_text, get_string-without, get_string_short,
}
use face_perception.Attendance.WorkTime.{calculat_work_time, carry_seconds, to_int}
use face_perception.Attendance.WorkTime.Formula.{divided, calculat_work_time-divided}
use face_perception.Attendance.WorkTime.Laws.{Works, total, calculat_work_time-Works}
use face_perception.Attendance.Report.{int_to_string, get_total_string}
use face_perception.Attendance.Report.Laws.{split, read_int, int_to_string_roundtrip}
use face_perception.Attendance.Roster.{
  Calendar, Roster, new_roster, send_vector, record_visit, sign_out, find_loop, same_user,
}
use face_perception.Attendance.Roster.Lookup.{User, lookup}
use face_perception.Attendance.Roster.Visits.{Updates}
use face_perception.Attendance.Roster.Invariant.{IsValid, new_roster-IsValid, send_vector-IsValid}
use face_perception.Attendance.Roster.History.{run, own_times, after_visits, sender, run-own_times}
use face_perception.Attendance.Roster.Hours.{add_stays, run-total, run-total_twice}
use face_perception.Attendance.Roster.Total.{send_vector_done}

-- A calendar whose local times are the seconds themselves.
abbrev calendar : Calendar
calendar = record { Tm = ℕ; localtime = λ t. t; mktime = λ t. t; strftime = λ t. codes "now" }

-- An array that holds a query.
abbrev query_array : Bytes → Bytes
query_array q = q ++ 0 ∷ []

abbrev zhou : User
zhou = record { name = codes "zhou"; id = codes "7" }

abbrev query : Bytes
query = query_text (codes "n") (codes "zhou") (codes "i") (codes "7")

abbrev calls : List (Bytes × ℕ)
calls =
    (query_array query, 1000)
    ∷ (query_array (codes "n=wang&i=8"), 1500)
    ∷ (query_array query, 4700)
    ∷ (query_array query, 4800)
    ∷ []

abbrev zhou_node : UserNode
zhou_node = record {
  name = codes "zhou";
  id = codes "7";
  arrive_time = codes "now";
  leave_time = codes "now";
  sec = pos 0;
  min = 5;
  hour = 2;
  days = 0;
  start_time = 1000;
  end_time = 4800;
}

abbrev wang_node : UserNode
wang_node = record (user_node (codes "wang") (codes "8") (codes "now") [] 0) { start_time = 1500 }

abbrev evening : Roster
evening = record { size = 2; v = zhou_node ∷ wang_node ∷ [] }

-- 3700 and 3800 seconds after the arrival: 7500 seconds in all.
run-evening : run calendar calls new_roster ≡ done evening
unfolding run send_vector strlen c_text get_string write zeros new_array skip_key copy_value put
    record_visit find_loop same_user str_eq sign_out calculat_work_time carry_seconds to_int ◌+ℤ◌
    int_to_string get_total_string
run-evening = refl

own_times-calls : own_times zhou calls ≡ 1000 ∷ 4700 ∷ 4800 ∷ []
unfolding sender strlen c_text get_string write zeros new_array skip_key copy_value put equal
own_times-calls = refl

lookup-zhou : lookup zhou evening.v ≡ some zhou_node
unfolding lookup equal
lookup-zhou = refl

run-own_times_example :
    after_visits calendar zhou (own_times zhou calls) (lookup zhou [])
    ≡ done (lookup zhou evening.v)
run-own_times_example = run-own_times calendar zhou calls new_roster new_roster-IsValid run-evening

run-total_example : total zhou_node ≡ add_stays 1000 (4700 ∷ 4800 ∷ []) (pos 0)
run-total_example =
    run-total calendar (λ t. refl) zhou calls 1000 (4700 ∷ 4800 ∷ []) run-evening own_times-calls
      lookup-zhou

run-total_twice_example : (total zhou_node ≡ pos 7500) × (total zhou_node ≢ pos 3800)
run-total_twice_example =
    run-total_twice calendar (λ t. refl) zhou calls 1000 4700 4800 run-evening own_times-calls
      lookup-zhou (omega arith) (omega arith)

abbrev morning : Roster
morning = record {
  size = 1;
  v = record (user_node (codes "zhou") (codes "7") (codes "now") [] 0) { start_time = 9 } ∷ [];
}

send_vector-morning : send_vector calendar (query_array query) 9 new_roster ≡ done (morning, none)
unfolding send_vector strlen c_text get_string write zeros new_array skip_key copy_value put
    record_visit find_loop
send_vector-morning = refl

send_vector-IsValid_example : IsValid morning
send_vector-IsValid_example =
    send_vector-IsValid calendar (query_array query) 9 new_roster new_roster-IsValid
      send_vector-morning

send_vector_done_example :
    (out : Roster × Option Bytes) × (send_vector calendar (query_array query) 9 new_roster
      ≡ done out)
    × Updates calendar zhou 9 [] out.0.v
unfolding lookup
send_vector_done_example =
    send_vector_done calendar (codes "n") (codes "zhou") (codes "i") (codes "7") [] 9 new_roster
      (omega arith) (omega arith) (omega arith) (omega arith) new_roster-IsValid (λ n e. cc)

abbrev leaving : UserNode
leaving = record (user_node [] [] [] [] 3) {
  sec = pos 30;
  min = 59;
  hour = 7;
  start_time = 100;
  end_time = 150;
}

calculat_work_time-Works_example :
    (m : UserNode) × (calculat_work_time leaving ≡ done m) × Works leaving m
unfolding ◌+ℤ◌
calculat_work_time-Works_example =
    calculat_work_time-Works leaving (record { min_lt = omega arith; hour_lt = omega arith })
      (record { at_least = omega arith; at_most = omega arith })

calculat_work_time-divided_example : calculat_work_time leaving ≡ done (divided leaving 80)
unfolding ◌+ℤ◌
calculat_work_time-divided_example =
    calculat_work_time-divided leaving 80 (record { min_lt = omega arith; hour_lt = omega arith })
      refl (omega arith)

get_string-query_text_example :
    get_string (codes "n=zhou&i=7" ++ 0 ∷ []) 10 ≡ done (codes "zhou", codes "7")
get_string-query_text_example =
    get_string-query_text (codes "n") (codes "zhou") (codes "i") (codes "7") [] (omega arith)
      (omega arith) (omega arith) (omega arith)

get_string-without_run : get_string (codes "/show" ++ 0 ∷ 0 ∷ []) 5 ≡ done ([], [])
get_string-without_run = get_string-without b'/' (codes "show") [] (omega arith) (omega arith)

get_string_short_run : get_string (codes "a=") 2 ≡ fault out_of_bounds
get_string_short_run = get_string_short (codes "a=") 2 (omega arith)

int_to_string_roundtrip_example :
    (t : Bytes) × (int_to_string leaving ≡ done t)
    × (map read_int (split t) ≡ pos 3 ∷ pos 7 ∷ pos 59 ∷ pos 30 ∷ [])
int_to_string_roundtrip_example = int_to_string_roundtrip leaving (record {
  days_fit = record { at_least = omega arith; at_most = omega arith };
  hour_fits = record { at_least = omega arith; at_most = omega arith };
  min_fits = record { at_least = omega arith; at_most = omega arith };
  sec_fits = record { at_least = omega arith; at_most = omega arith };
})
