-- ===== src/Tests/Threads.antt =====
-- Threads that record visits at the same time, and their theorems at concrete inputs.
use face_perception.Common.{
  ℕ, ◌≤◌, ◌*◌, ◌+◌, ◌≡◌, refl, ap, true≢false, Bytes, List, [], ◌∷◌, ◌++◌, codes, true, none, equal,
}
use face_perception.Outcome.{done}
use face_perception.Memory.{strlen, c_text, zeros, write, put, str_eq}
use face_perception.Attendance.Node.{user_node}
use face_perception.Attendance.Query.{get_string, skip_key, copy_value, new_array}
use face_perception.Attendance.Roster.{
  Calendar, Roster, new_roster, send_vector, record_visit, find_loop, same_user,
}
use face_perception.Attendance.Roster.Lookup.{User}
use face_perception.Attendance.Roster.Invariant.{new_roster-IsValid}
use face_perception.Attendance.Roster.Ledger.{ledger, own_times-swap, run-ledger}
use face_perception.Attendance.Roster.History.{run, sender}
use face_perception.Threads.Places.{Section, copies_name, outside, inside, runs, starts}
use face_perception.Threads.Vector.{Shared}
use face_perception.Threads.Actions.{step, new_name}
use face_perception.Threads.Steps.{System, at_start, Reach, acts, lock}
use face_perception.Threads.Mutex.{holding, mutual_exclusion, Onward, no_deadlock}
use face_perception.Threads.Ends.Moves.{count_of, secs_in}
use face_perception.Threads.Ends.Bound.{steps_of, steps_le}
use face_perception.Threads.Ends.Over.{LeadsOut, reached-LeadsOut}
use face_perception.Threads.Alone.{stays, goes, Run-Reach}
use face_perception.Threads.Alone.Always.{alone_always}
use face_perception.Threads.Alone.Sequence.{Settles, one_after_another}
use face_perception.Threads.Users.Reached.{Keeps, records_stay}

-- A calendar whose local times are the seconds themselves.
abbrev pub calendar : Calendar
calendar = record { Tm = ℕ; localtime = λ t. t; mktime = λ t. t; strftime = λ t. codes "now" }

abbrev pub empty_room : Shared calendar
empty_room = record { roster = new_roster; capacity = 4; block = 0; tm = 0; console = [] }

abbrev pub zhou_query : Bytes
zhou_query = codes "n=zhou&i=7" ++ 0 ∷ []

abbrev pub wang_query : Bytes
wang_query = codes "n=wang&i=8" ++ 0 ∷ []

abbrev pub zhou : User
zhou = record { name = codes "zhou"; id = codes "7" }

abbrev pub wang : User
wang = record { name = codes "wang"; id = codes "8" }

abbrev pub both_calls : List (Bytes × ℕ)
both_calls = (zhou_query, 1000) ∷ (wang_query, 1060) ∷ []

-- The array of `get_string` for these queries.
abbrev name_array : Bytes
name_array = 0 ∷ 0 ∷ 0 ∷ 0 ∷ 0xcd ∷ 0xcd ∷ 0xcd ∷ 0xcd ∷ 0xcd ∷ 0xcd ∷ 0xcd ∷ []

abbrev pub first_section : Section
first_section = copies_name name_array zhou_query 1000

-- The first thread has locked the mutex for its first section.
abbrev pub one_inside : System calendar
one_inside = record {
  shared = empty_room;
  locked = true;
  threads = inside first_section ∷ outside (runs (starts wang_query 1060)) ∷ [];
}

one_inside-Reach : Reach (at_start empty_room both_calls) one_inside
unfolding step strlen c_text new_name write zeros new_array
one_inside-Reach =
    Run-Reach [] (outside (runs (starts wang_query 1060)) ∷ []) (goes (goes stays (acts refl)) lock)

mutual_exclusion_run : ¬ (holding (outside (runs (starts wang_query 1060))) ≡ 1)
mutual_exclusion_run =
    mutual_exclusion both_calls [] [] [] (inside first_section)
      (outside (runs (starts wang_query 1060))) one_inside-Reach refl refl

no_deadlock_run : Onward one_inside
no_deadlock_run = no_deadlock both_calls one_inside-Reach

records_stay_example : Keeps empty_room both_calls one_inside.shared
records_stay_example = records_stay both_calls one_inside-Reach

-- The thread is alone, and in its first section.
abbrev alone_inside : System calendar
alone_inside = record { shared = empty_room; locked = true; threads = inside first_section ∷ [] }

alone_inside-Reach : Reach (at_start empty_room ((zhou_query, 1000) ∷ [])) alone_inside
unfolding step strlen c_text new_name write zeros new_array
alone_inside-Reach = Run-Reach [] [] (goes (goes stays (acts refl)) lock)

abbrev zhou_alone : Roster
zhou_alone = record {
  size = 1;
  v = record (user_node (codes "zhou") (codes "7") (codes "now") [] 0) { start_time = 1000 } ∷ [];
}

zhou_alone_run : send_vector calendar zhou_query 1000 new_roster ≡ done (zhou_alone, none)
unfolding send_vector strlen c_text get_string write zeros new_array skip_key copy_value put
    record_visit find_loop same_user str_eq
zhou_alone_run = refl

steps_le_example :
    steps_of one_inside-Reach
    ≤ secs_in empty_room + 2 * (2 * (count_of empty_room + 2) + 2147483695)
steps_le_example = steps_le empty_room both_calls one_inside-Reach

reached-LeadsOut_run : LeadsOut one_inside
reached-LeadsOut_run = reached-LeadsOut both_calls one_inside-Reach

alone_always_example : Settles alone_inside zhou_alone
alone_always_example = alone_always empty_room zhou_query 1000 zhou_alone_run alone_inside-Reach

pub zhou-sender : sender zhou_query ≡ done zhou
unfolding sender strlen c_text get_string write zeros new_array skip_key copy_value put
zhou-sender = refl

pub wang-sender : sender wang_query ≡ done wang
unfolding sender strlen c_text get_string write zeros new_array skip_key copy_value put
wang-sender = refl

abbrev both_signed_in : Roster
both_signed_in = record {
  size = 2;
  v =
      record (user_node (codes "zhou") (codes "7") (codes "now") [] 0) { start_time = 1000 }
      ∷ record (user_node (codes "wang") (codes "8") (codes "now") [] 0) { start_time = 1060 }
      ∷ [];
}

run-both_calls : run calendar both_calls new_roster ≡ done both_signed_in
unfolding run send_vector strlen c_text get_string write zeros new_array skip_key copy_value put
    record_visit find_loop same_user str_eq
run-both_calls = refl

one_after_another_example : Settles (at_start empty_room both_calls) both_signed_in
one_after_another_example = one_after_another empty_room both_calls run-both_calls

abbrev both_in_turn : List (Bytes × ℕ)
both_in_turn = (wang_query, 1060) ∷ (zhou_query, 1000) ∷ []

abbrev wang_first : Roster
wang_first = record {
  size = 2;
  v =
      record (user_node (codes "wang") (codes "8") (codes "now") [] 0) { start_time = 1060 }
      ∷ record (user_node (codes "zhou") (codes "7") (codes "now") [] 0) { start_time = 1000 }
      ∷ [];
}

run-both_in_turn : run calendar both_in_turn new_roster ≡ done wang_first
unfolding run send_vector strlen c_text get_string write zeros new_array skip_key copy_value put
    record_visit find_loop same_user str_eq
run-both_in_turn = refl

run-ledger_run : ledger both_signed_in ≡ ledger wang_first
unfolding equal
run-ledger_run =
    run-ledger calendar both_calls both_in_turn new_roster new_roster-IsValid
      (λ u.
        own_times-swap u zhou wang zhou_query wang_query 1000 1060 [] zhou-sender wang-sender
          λ e. true≢false (ap (λ (x : User). equal x.id zhou.id) e))
      run-both_calls run-both_in_turn
