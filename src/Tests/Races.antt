-- ===== src/Tests/Races.antt =====
-- Threads that disturb each other and threads that do not, and their theorems at concrete inputs.
use face_perception.Common.{inl, inr, ◌≡◌, refl, Bytes, [], ◌∷◌, ◌++◌, codes, arith, equal}
use face_perception.Outcome.{done}
use face_perception.Memory.{strlen, c_text, zeros, write, put}
use face_perception.Attendance.Node.{UserNode, user_node}
use face_perception.Attendance.Roster.{new_roster, sign_out}
use face_perception.Attendance.Roster.Lookup.{IsDistinct, Lacks, StandsIn}
use face_perception.Attendance.Roster.Invariant.{IsValid}
use face_perception.Threads.Places.{outside, runs, starts}
use face_perception.Threads.Vector.{Shared}
use face_perception.Threads.Actions.{step, new_name}
use face_perception.Threads.Steps.{System, at_start, Reach, acts, lock}
use face_perception.Threads.Alone.{stays, goes, Run-Reach}
use face_perception.Threads.Alone.Sequence.{Settles}
use face_perception.Threads.Races.Arrivals.{arrival, stored_twice, two_arrivals}
use face_perception.Threads.Races.Clock.{labelled, borrowed_clock}
use face_perception.Attendance.WorkTime.{
  calculat_work_time, to_int, carry_seconds, carry_minute, carry_minutes, carry_hours,
}
use face_perception.Attendance.Report.{
  int_to_string, get_total_string, field_text, int_to_str, decimal, digits,
}
use face_perception.Common.Int.{pos, ◌+ℤ◌, ◌-ℤ◌}
use face_perception.Threads.Races.Freed.{UsesFreed, freed_iterator}
use face_perception.Threads.Races.Departure.{mistaken, mistaken_departure}
use face_perception.Threads.Users.Records.{users}
use face_perception.Threads.Known.Reached.{
  AreKnown, one_call, no_calls, Undisturbed, known_users, IsEnd, known_users-IsEnd,
}
use face_perception.Attendance.Roster.History.{sender}
use face_perception.Attendance.Query.{get_string, skip_key, copy_value, new_array}
use face_perception.Tests.Threads.{
  calendar, empty_room, zhou_query, wang_query, zhou, wang, both_calls, one_inside, zhou-sender,
  wang-sender,
}

-- Another query for the same user.
abbrev zhou_query' : Bytes
zhou_query' = codes "name=zhou&id=7" ++ 0 ∷ []

zhou-sender' : sender zhou_query' ≡ done zhou
unfolding sender strlen c_text get_string write zeros new_array skip_key copy_value put
zhou-sender' = refl

two_arrivals_example :
    Settles
      (at_start empty_room ((zhou_query, 1000) ∷ (zhou_query', 1060) ∷ []))
      (stored_twice calendar new_roster zhou 1000 1060)
    × (¬ IsDistinct (stored_twice calendar new_roster zhou 1000 1060).v)
two_arrivals_example =
    two_arrivals empty_room zhou_query zhou_query' 1000 1060 zhou zhou-sender zhou-sender' tt tt

mistaken_departure_example :
    Settles
      (at_start empty_room both_calls)
      (record { size = 2; v = mistaken calendar zhou 1000 1060 ∷ [] })
    × Lacks wang (mistaken calendar zhou 1000 1060 ∷ [])
unfolding equal
mistaken_departure_example =
    mistaken_departure empty_room zhou_query wang_query 1000 1060 zhou wang zhou-sender wang-sender
      tt tt tt refl (omega arith)

abbrev zhou_here : UserNode
zhou_here = record (user_node (codes "zhou") (codes "7") (codes "now") [] 0) { start_time = 900 }

-- The array has room for one element.
abbrev full_room : Shared calendar
full_room = record {
  roster = record { size = 1; v = zhou_here ∷ [] };
  capacity = 1;
  block = 0;
  tm = 0;
  console = [];
}

zhou_here-StandsIn : StandsIn zhou full_room.roster.v [] zhou_here []
unfolding equal
zhou_here-StandsIn = record { splits = refl; lacks = tt; is_cur = refl }

freed_iterator_example :
    UsesFreed (at_start full_room both_calls) (codes "now") (record { block = 0; index = 0 })
unfolding equal
freed_iterator_example =
    freed_iterator full_room zhou_query wang_query 1000 1060 zhou wang zhou-sender wang-sender
      ((omega arith, omega arith), tt) zhou_here-StandsIn (refl, tt) refl

abbrev roomy : Shared calendar
roomy = record full_room { capacity = 2 }

-- Sixty seconds are carried twice.
abbrev zhou_gone : UserNode
zhou_gone = record zhou_here { end_time = 1060; leave_time = codes "now"; sec = pos 40; min = 2 }

abbrev zhou_departure : UserNode × Bytes
zhou_departure = (zhou_gone, get_total_string zhou_gone ++ codes "0:0:2:40")

zhou_departs : sign_out calendar 1060 zhou_here ≡ done zhou_departure
unfolding sign_out calculat_work_time int_to_string to_int carry_seconds carry_minute carry_minutes
    carry_hours field_text int_to_str decimal digits get_total_string ◌+ℤ◌ ◌-ℤ◌ zeros write c_text
zhou_departs = refl

borrowed_clock_example : Settles (at_start roomy both_calls) (record {
  size = 2;
  v = labelled (codes "now") zhou_gone ∷ arrival calendar wang 1060 1060 ∷ [];
})
unfolding equal
borrowed_clock_example =
    borrowed_clock roomy zhou_query wang_query 1000 1060 zhou wang zhou-sender wang-sender
      ((omega arith, omega arith), tt) zhou_here-StandsIn (refl, tt) (omega arith) zhou_departs

abbrev wang_here : UserNode
wang_here = record (user_node (codes "wang") (codes "8") (codes "now") [] 0) { start_time = 950 }

abbrev both_here : Shared calendar
both_here = record full_room { roster = record { size = 2; v = zhou_here ∷ wang_here ∷ [] } }

both_here-IsValid : IsValid both_here.roster
unfolding equal
both_here-IsValid = record {
  named = ((omega arith, omega arith), ((omega arith, omega arith), tt));
  distinct = ((refl, tt), (tt, tt));
  carried = (
    record { min_lt = omega arith; hour_lt = omega arith },
    (record { min_lt = omega arith; hour_lt = omega arith }, tt),
  );
  counted = refl;
}

both-AreKnown : AreKnown (users both_here.roster.v) both_calls
both-AreKnown =
    one_call zhou zhou-sender (inl refl) (one_call wang wang-sender (inr (inl refl)) no_calls)

abbrev departing : System calendar
departing = record one_inside { shared = both_here }

departing-Reach : Reach (at_start both_here both_calls) departing
unfolding step strlen c_text new_name write zeros new_array
departing-Reach =
    Run-Reach [] (outside (runs (starts wang_query 1060)) ∷ []) (goes (goes stays (acts refl)) lock)

known_users_example : Undisturbed both_here departing
known_users_example =
    known_users both_here both_calls both_here-IsValid both-AreKnown departing-Reach

known_users-IsEnd_example : (last : System calendar) × Reach departing last × IsEnd last
known_users-IsEnd_example =
    known_users-IsEnd both_here both_calls both_here-IsValid both-AreKnown departing-Reach
