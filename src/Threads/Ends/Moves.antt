-- ===== src/Threads/Ends/Moves.antt =====
-- server/server_http.h: every move lowers the rank of its thread.
use face_perception.Common.{
  ℕ, zero, suc, ◌+◌, ◌≤◌, ◌<◌, Bool, true, false, ◌≡◌, refl, ap, ◌∙◌, inl, inr, Bool-cases, Bytes,
  List, [], ◌∷◌, ◌++◌, ◌&&◌, set, Option, arith, length, length-set, length-append, drop, ltb,
}
use face_perception.Common.Int.{ℤ, pos, negsuc, pos_part, leb_ℤ, ◌+ℤ◌}
use face_perception.Outcome.{done, done-injective, >>=-eq-done, Ensures, Ensures->>=, Ensures-done}
use face_perception.Memory.{strlen, c_text}
use face_perception.Attendance.Node.{UserNode}
use face_perception.Attendance.Query.{skip_key}
use face_perception.Attendance.WorkTime.{to_int, difftime, carry_minute}
use face_perception.Attendance.WorkTime.Laws.{carry_minute_sec}
use face_perception.Attendance.Report.{field_text}
use face_perception.Attendance.Roster.{Calendar, Roster, same_user}
use face_perception.Threads.Places.{
  Pointer, Section, copies_name, skips_key, reads_clock, counts, signs_in, totals, appends, inserts,
  Point, starts, named, numbered, begins, finds, ends, tests, leaves, leaves_at, carries, writes,
  reports, shows, shows_row, Free, Pc,
}
use face_perception.Threads.Vector.{Shared, first, alive, element, at_end, store_at, push_back}
use face_perception.Threads.Vector.Laws.{push_back-roster}
use face_perception.Threads.Actions.{
  new_name, end_name, copy_name, field, find_next, is_found, show_next, step, enter,
}
use face_perception.Threads.Steps.{Move, acts, lock, unlock}
use face_perception.Threads.Ends.Rank.{
  secs_of, rank_at, rank_behind, rank_free, rank, pushes_at, pushes_in, pushes_free, pushes,
}

first-lt : (v : List UserNode) (i : ℕ) {n : UserNode} → first (drop i v) ≡ done n → i < length v
first-lt [] zero h = cc
first-lt [] (suc i) h = cc
first-lt (n ∷ v) zero h = omega arith
first-lt (n ∷ v) (suc i) h = omega (arith, first-lt v i h)

-- The seconds of all records.
abbrev pub all_secs : List UserNode → ℕ
all_secs [] = 0
all_secs (n ∷ v) = secs_of n + all_secs v

all_secs-set :
    (v : List UserNode) (i : ℕ) (cur new : UserNode)
    → first (drop i v) ≡ done cur
    → all_secs (set v i new) + secs_of cur ≡ all_secs v + secs_of new
all_secs-set [] zero cur new h = cc
all_secs-set [] (suc i) cur new h = cc
all_secs-set (n ∷ v) zero cur new h = omega (arith, ap secs_of (done-injective h))
all_secs-set (n ∷ v) (suc i) cur new h = omega (arith, all_secs-set v i cur new h)

all_secs-append :
    (v : List UserNode) (n : UserNode) → all_secs (v ++ n ∷ []) ≡ all_secs v + secs_of n
all_secs-append [] n = omega arith
all_secs-append (m ∷ v) n = omega (arith, all_secs-append v n)

to_int-le : (z : ℤ) {sec : ℤ} → to_int z ≡ done sec → pos_part sec ≤ 2147483647
unfolding to_int
to_int-le z {sec} h = elim (Bool-cases (leb_ℤ (negsuc 2147483647) z && leb_ℤ z (pos 2147483647))) [
  | inl fits ↦ let e : z ≡ sec = done-injective (rw fits at h) in ground (arith, ap pos_part e)
  | inr outside ↦ let bad = rw outside at h in cc
]

carry_minute-secs :
    (n : UserNode) (z : ℤ)
    → n.sec ≡ z
    → leb_ℤ (pos 60) z ≡ true
    → secs_of (carry_minute n) < secs_of n
carry_minute-secs n (pos s) e h =
    let le : 60 ≤ s = ground arith in
    omega (arith, le, ap pos_part e, ap pos_part (carry_minute_sec n s e le))
carry_minute-secs n (negsuc s) e h = ground arith

module _ {c : Calendar} where
  abbrev pub count_of : Shared c → ℕ
  count_of m = length m.roster.v

  element-lt :
      (m : Shared c) (it : Pointer) {n : UserNode} → element m it ≡ done n → it.index < count_of m
  unfolding element
  element-lt m it h =
      let (_, _, there) = >>=-eq-done (alive m it) _ h in first-lt m.roster.v it.index there

  abbrev pub secs_in : Shared c → ℕ
  secs_in m = all_secs m.roster.v

  secs-store_at :
      (m : Shared c) (it : Pointer) (cur new : UserNode)
      → element m it ≡ done cur
      → secs_in (store_at m it new) + secs_of cur ≡ secs_in m + secs_of new
  unfolding element
  secs-store_at m it cur new h =
      let (_, _, there) = >>=-eq-done (alive m it) _ h in
      all_secs-set m.roster.v it.index cur new there

  secs-push_back : (m : Shared c) (n : UserNode) → secs_in (push_back m n) ≡ secs_in m + secs_of n
  secs-push_back m n =
      ap (λ (r : Roster). all_secs r.v) (push_back-roster m n) ∙ all_secs-append m.roster.v n

  -- No more records than before can come, and fewer moves are left.
  abbrev Lowers : Shared c → Point → Shared c × Free → Type 0
  Lowers m p (m', f) =
      (count_of m' + pushes_free f ≤ count_of m + pushes_at p)
      × ((n : ℕ) → count_of m ≤ n → secs_in m' + rank_free n f < secs_in m + rank_at n p)

  find_next-Lowers :
      (m : Shared c) (user : UserNode) (text : Bytes) (it : Pointer) (b : Bool)
      → Ensures (Lowers m (finds user text it)) (find_next m user text it b)
  find_next-Lowers m user text it true = (omega arith, λ n h. omega arith)
  find_next-Lowers m user text it false =
      Ensures->>= (Lowers m (finds user text it)) (element m it) _ λ cur e.
        Ensures->>= (Lowers m (finds user text it)) (same_user cur user) _ λ same e'.
          let lt = element-lt m it e in
          elim (Bool-cases same) [
            | inl hit ↦ rw hit (omega arith, λ n h. omega arith)
            | inr miss ↦ rw miss (omega arith, λ n h. omega arith)
          ]

  is_found-Lowers :
      (m : Shared c) (user : UserNode) (text : Bytes) (it : Pointer) (b : Bool)
      → Lowers m (tests user text it) (m, is_found user text it b)
  is_found-Lowers m user text it true = (omega arith, λ n h. omega arith)
  is_found-Lowers m user text it false = (omega arith, λ n h. omega arith)

  show_next-Lowers :
      (m : Shared c) (report : Option Bytes) (it : Pointer) (b : Bool)
      → Ensures (Lowers m (shows_row report it)) (show_next m report it b)
  show_next-Lowers m report it true = (omega arith, λ n h. omega arith)
  show_next-Lowers m report it false =
      Ensures->>= (Lowers m (shows_row report it)) (element m it) _
        λ cur e. let lt = element-lt m it e in (omega arith, λ n h. omega arith)

  step-Lowers : (m : Shared c) (p : Point) → Ensures (Lowers m p) (step p m)
  unfolding step
  step-Lowers m (starts query now) =
      Ensures->>= (Lowers m (starts query now)) (strlen query) _ λ len e.
        Ensures->>= (Lowers m (starts query now)) (new_name len) _
          λ tmp e'. (omega arith, λ n h. omega arith)
  step-Lowers m (named tmp i rest now) =
      Ensures->>= (Lowers m (named tmp i rest now)) (end_name tmp i) _
        λ name e. (omega arith, λ n h. omega arith)
  step-Lowers m (numbered name number now) =
      Ensures->>= (Lowers m (numbered name number now)) (c_text number) _
        λ id e. (omega arith, λ n h. omega arith)
  step-Lowers m (begins user text) = (omega arith, λ n h. omega arith)
  step-Lowers m (finds user text it) =
      Ensures->>= (Lowers m (finds user text it)) (at_end m it) _
        λ b e. find_next-Lowers m user text it b
  step-Lowers m (ends user text) = (omega arith, λ n h. omega arith)
  step-Lowers m (tests user text it) =
      Ensures->>= (Lowers m (tests user text it)) (at_end m it) _
        λ b e. is_found-Lowers m user text it b
  step-Lowers m (leaves text it) =
      Ensures->>= (Lowers m (leaves text it)) (element m it) _ λ prev e. (
        omega (arith, length-set m.roster.v it.index (record prev { end_time = c.mktime m.tm })),
        λ n h. omega (arith, secs-store_at m it prev (record prev { end_time = c.mktime m.tm }) e),
      )
  step-Lowers m (leaves_at text it) =
      Ensures->>= (Lowers m (leaves_at text it)) (element m it) _ λ prev e. (
        omega (arith, length-set m.roster.v it.index (record prev { leave_time = text })),
        λ n h. omega (arith, secs-store_at m it prev (record prev { leave_time = text }) e),
      )
  step-Lowers m (Point.works it) =
      Ensures->>= (Lowers m (Point.works it)) (element m it) _ λ prev e.
        Ensures->>= (Lowers m (Point.works it))
          (to_int (prev.sec +ℤ difftime prev.end_time prev.start_time)) _
          λ sec e'.
            let new : UserNode = record prev { sec = sec } in
            (
              omega (arith, length-set m.roster.v it.index new),
              λ n h. omega (
                arith,
                secs-store_at m it prev new e,
                to_int-le (prev.sec +ℤ difftime prev.end_time prev.start_time) e',
              ),
            )
  step-Lowers m (carries it) = Ensures->>= (Lowers m (carries it)) (element m it) _ λ cur e.
      elim (Bool-cases (leb_ℤ (pos 60) cur.sec)) [
        | inl more ↦ rw more (
          omega (arith, length-set m.roster.v it.index (carry_minute cur)),
          λ n h. omega (
            arith,
            secs-store_at m it cur (carry_minute cur) e,
            carry_minute-secs cur cur.sec refl more,
          ),
        )
        | inr last ↦ rw last (omega arith, λ n h. omega arith)
      ]
  step-Lowers m (writes k it total time) =
      Ensures->>= (Lowers m (writes k it total time)) (element m it) _ λ cur e.
        Ensures->>= (Lowers m (writes k it total time)) (field k cur) _ λ key e'.
          Ensures->>= (Lowers m (writes k it total time)) (field_text key) _
            λ buf e''. (omega arith, λ n h. omega arith)
  step-Lowers m (reports report) = (omega arith, λ n h. omega arith)
  step-Lowers m (shows report) = (omega arith, λ n h. omega arith)
  step-Lowers m (shows_row report it) =
      Ensures->>= (Lowers m (shows_row report it)) (at_end m it) _
        λ b e. show_next-Lowers m report it b

  abbrev Behind : Shared c → Section → Shared c × Point → Type 0
  Behind m k (m', p) =
      (count_of m' + pushes_at p ≤ count_of m + pushes_in k)
      × ((n : ℕ) → secs_in m' + rank_at n p ≤ secs_in m + rank_behind n k)

  count-push_back : (m : Shared c) (n : UserNode) → count_of (push_back m n) ≡ count_of m + 1
  count-push_back m n =
      ap (λ (r : Roster). length r.v) (push_back-roster m n) ∙ length-append m.roster.v (n ∷ [])

  enter-Behind : (m : Shared c) (k : Section) → Ensures (Behind m k) (enter k m)
  unfolding enter
  enter-Behind m (copies_name tmp query now) =
      Ensures->>= (Behind m (copies_name tmp query now)) (copy_name tmp query) _
        λ copied e. (omega arith, λ n. omega arith)
  enter-Behind m (skips_key name rest now) =
      Ensures->>= (Behind m (skips_key name rest now)) (skip_key rest) _
        λ number e. (omega arith, λ n. omega arith)
  enter-Behind m (reads_clock name id now) = (omega arith, λ n. omega arith)
  enter-Behind m (counts user text) = (omega arith, λ n. omega arith)
  enter-Behind m (signs_in user text) = (
    omega
        (arith, count-push_back m (record user { start_time = c.mktime m.tm; arrive_time = text })),
    λ n.
        omega (
          arith,
          secs-push_back m (record user { start_time = c.mktime m.tm; arrive_time = text }),
        ),
  )
  enter-Behind m (totals it) =
      Ensures->>= (Behind m (totals it)) (element m it) _ λ prev e. (omega arith, λ n. omega arith)
  enter-Behind m (appends k it total time buf) = elim (Bool-cases (ltb k 3)) [
    | inl more ↦ rw more (omega arith, λ n. ground arith)
    | inr last ↦ rw last (omega arith, λ n. omega arith)
  ]
  enter-Behind m (inserts report) = (omega arith, λ n. omega arith)

  -- No more records than before can come, and fewer moves are left.
  pub record Falls (m : Shared c) (pc : Pc) (m' : Shared c) (pc' : Pc) : Type 0 where
    pub stored : count_of m' + pushes pc' ≤ count_of m + pushes pc
    pub lower : (n : ℕ) → count_of m ≤ n → secs_in m' + rank n pc' < secs_in m + rank n pc

  pub Move-Falls :
      {m m' : Shared c} {b b' : Bool} {pc pc' : Pc} → Move m b pc m' b' pc' → Falls m pc m' pc'
  Move-Falls {m} (acts {p} e) =
      let (a, l) = Ensures-done (Lowers m p) (step p m) (step-Lowers m p) e in
      record { stored = a; lower = l }
  Move-Falls lock = record { stored = omega arith; lower = λ n h. omega arith }
  Move-Falls {m} (Move.works {k} e) =
      let (a, l) = Ensures-done (Behind m k) (enter k m) (enter-Behind m k) e in
      record { stored = a; lower = λ n h. omega (arith, l n) }
  Move-Falls unlock = record { stored = omega arith; lower = λ n h. omega arith }
