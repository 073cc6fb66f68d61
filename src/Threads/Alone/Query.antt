-- ===== src/Threads/Alone/Query.antt =====
-- server/server_http.h: a thread in `get_string`, and in `get_time` behind it.
use face_perception.Common.{ℕ, ◌+◌, ◌≡◌, refl, subst, Bytes, ltb}
use face_perception.Outcome.{done, assert, >>=-eq-done, done-injective}
use face_perception.Memory.{put, write, zeros, c_text, strlen}
use face_perception.Attendance.Node.{buynode}
use face_perception.Attendance.Query.{pointer_size, new_array, skip_key, copy_value, get_string}
use face_perception.Attendance.Roster.{Calendar}
use face_perception.Threads.Places.{
  Point, runs, waits, copies_name, skips_key, reads_clock, starts, named, numbered, begins, finds,
}
use face_perception.Threads.Vector.{Shared, begin}
use face_perception.Threads.Actions.{new_name, end_name, step, enter}
use face_perception.Threads.Alone.{Does, ◌then◌, by_step, by_section}

-- The parts of a call of `get_string` that returns.
record Parts (query : Bytes) (n : ℕ) (u : Bytes × Bytes) : Type 0 where
  tmp : Bytes
  allocated : new_name n ≡ done tmp
  value : Bytes
  skipped : skip_key query ≡ done value
  copied : Bytes × ℕ × Bytes
  copies : copy_value tmp 0 value ≡ done copied
  ended : end_name copied.0 copied.1 ≡ done u.0
  number : Bytes
  reached : skip_key copied.2 ≡ done number
  taken : c_text number ≡ done u.1

get_string-Parts :
    (query : Bytes) (n : ℕ) {u : Bytes × Bytes} → get_string query n ≡ done u → Parts query n u
unfolding get_string new_name end_name
get_string-Parts query n {u} h =
    let (_, a, h1) = >>=-eq-done (assert (ltb 0 n)) _ h in
    let (tmp, b, h2) = >>=-eq-done (write (new_array (n + 1)) 0 (zeros pointer_size)) _ h1 in
    let (value, d, h3) = >>=-eq-done (skip_key query) _ h2 in
    let (copied, e, h4) = >>=-eq-done (copy_value tmp 0 value) _ h3 in
    let (tmp'', f, h5) = >>=-eq-done (put copied.0 copied.1 0) _ h4 in
    let (name, g, h6) = >>=-eq-done (c_text tmp'') _ h5 in
    let (number, i, h7) = >>=-eq-done (skip_key copied.2) _ h6 in
    let (id, j, h8) = >>=-eq-done (c_text number) _ h7 in
    subst (Parts query n) (done-injective h8) (record {
      tmp = tmp;
      allocated = rw (a, b);
      value = value;
      skipped = d;
      copied = copied;
      copies = e;
      ended = rw (f, g);
      number = number;
      reached = i;
      taken = j;
    })

module _ {c : Calendar} where
  pub reads_query :
      (m : Shared c) (query : Bytes) (now : ℕ) {len : ℕ} {u : Bytes × Bytes}
      → strlen query ≡ done len
      → get_string query len ≡ done u
      → Does m (runs (starts query now)) m (waits (reads_clock u.0 u.1 now))
  unfolding step enter
  reads_query m query now {len} {u} e h =
      let p = get_string-Parts query len h in
      let started : Does m (runs (starts query now)) m (waits (copies_name p.tmp query now)) =
        by_step (rw (e, p.allocated)) in
      let after_name : Point = named p.copied.0 p.copied.1 p.copied.2 now in
      let copied : Does m (waits (copies_name p.tmp query now)) m (runs after_name) =
        by_section (rw (p.skipped, p.copies)) in
      let ended : Does m (runs after_name) m (waits (skips_key u.0 p.copied.2 now)) =
        by_step (rw p.ended) in
      let skipped : Does m (waits (skips_key u.0 p.copied.2 now)) m
          (runs (numbered u.0 p.number now)) =
        by_section (rw p.reached) in
      let taken : Does m (runs (numbered u.0 p.number now)) m (waits (reads_clock u.0 u.1 now)) =
        by_step (rw p.taken) in
      started then copied then ended then skipped then taken

  pub reads_time :
      (m : Shared c) (name id : Bytes) (now : ℕ)
      → let there : Shared c = record m { tm = c.localtime now } in
        Does m
          (waits (reads_clock name id now))
          there
          (runs (finds (buynode name id) (c.strftime (c.localtime now)) (begin there)))
  unfolding step enter
  reads_time m name id now =
      by_section refl
      then by_step {p = begins (buynode name id) (c.strftime (c.localtime now))} refl
