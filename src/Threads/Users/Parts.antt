-- ===== src/Threads/Users/Parts.antt =====
-- server/server_http.h: `get_string` in the parts between its critical sections.
use face_perception.Common.{ℕ, ◌≡◌, refl, Bytes}
use face_perception.Outcome.{Outcome, done, ◌>>=◌, >>=-assoc}
use face_perception.Memory.{c_text, strlen}
use face_perception.Attendance.Query.{skip_key, get_string}
use face_perception.Attendance.Roster.Lookup.{User}
use face_perception.Attendance.Roster.History.{sender}
use face_perception.Threads.Actions.{new_name, end_name, copy_name}

-- What is left of finding out whom a query names, from the places of `get_string` on.
abbrev pub from_number : Bytes → Bytes → Outcome User
from_number name number = do id ← c_text number; done (record { name = name; id = id })

abbrev pub from_rest : Bytes → Bytes → Outcome User
from_rest name rest = do number ← skip_key rest; from_number name number

abbrev pub from_copied : Bytes × ℕ × Bytes → Outcome User
from_copied copied = do name ← end_name copied.0 copied.1; from_rest name copied.2

abbrev pub from_tmp : Bytes → Bytes → Outcome User
from_tmp query tmp = do copied ← copy_name tmp query; from_copied copied

pub sender-parts :
    (query : Bytes) → sender query ≡ (do len ← strlen query; tmp ← new_name len; from_tmp query tmp)
unfolding sender get_string new_name end_name
sender-parts query = simp >>=-assoc refl
