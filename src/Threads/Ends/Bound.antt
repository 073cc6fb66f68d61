-- ===== src/Threads/Ends/Bound.antt =====
-- server/server_http.h: how many steps the threads can make at all.
use face_perception.Common.{
  ℕ, ◌+◌, ◌*◌, ◌≤◌, ◌<◌, ◌≡◌, refl, ap, Bytes, List, [], ◌∷◌, ◌++◌, arith, length,
}
use face_perception.Attendance.Roster.{Calendar}
use face_perception.Threads.Places.{Pc}
use face_perception.Threads.Vector.{Shared}
use face_perception.Threads.Steps.{System, callers, at_start, Step, picks, Reach, start, later}
use face_perception.Threads.Ends.Rank.{rank, pushes, rank_mono}
use face_perception.Threads.Ends.Moves.{count_of, secs_in, Move-Falls}

abbrev pub all_pushes : List Pc → ℕ
all_pushes [] = 0
all_pushes (pc ∷ pcs) = pushes pc + all_pushes pcs

abbrev pub ranks : ℕ → List Pc → ℕ
ranks n [] = 0
ranks n (pc ∷ pcs) = rank n pc + ranks n pcs

all_pushes-append : (xs ys : List Pc) → all_pushes (xs ++ ys) ≡ all_pushes xs + all_pushes ys
all_pushes-append [] ys = omega arith
all_pushes-append (x ∷ xs) ys = omega (arith, all_pushes-append xs ys)

ranks-append : (n : ℕ) (xs ys : List Pc) → ranks n (xs ++ ys) ≡ ranks n xs + ranks n ys
ranks-append n [] ys = omega arith
ranks-append n (x ∷ xs) ys = omega (arith, ranks-append n xs ys)

ranks_mono : (n n' : ℕ) (pcs : List Pc) → n ≤ n' → ranks n pcs ≤ ranks n' pcs
ranks_mono n n' [] h = omega arith
ranks_mono n n' (pc ∷ pcs) h = omega (arith, rank_mono n n' pc h, ranks_mono n n' pcs h)

all_pushes-callers : (calls : List (Bytes × ℕ)) → all_pushes (callers calls) ≡ length calls
all_pushes-callers [] = refl
all_pushes-callers (_ ∷ calls) = omega (arith, all_pushes-callers calls)

ranks-callers :
    (n : ℕ) (calls : List (Bytes × ℕ))
    → ranks n (callers calls) ≡ length calls * (2 * n + 2147483695)
ranks-callers n [] = omega arith
ranks-callers n (_ ∷ calls) = grind (arith, ranks-callers n calls)

module _ {c : Calendar} where
  -- The records that there can be in the end, and the moves that are left.
  abbrev pub most : System c → ℕ
  most s = count_of s.shared + all_pushes s.threads

  abbrev pub moves_left : System c → ℕ
  moves_left s = secs_in s.shared + ranks (most s) s.threads

  pub Step-moves_left : {s t : System c} → Step s t → moves_left t < moves_left s
  Step-moves_left {s} {t} (picks before after {pc} {pc'} e e' move) =
      let f = Move-Falls move in
      let le : most t ≤ most s = omega (
        arith,
        f.stored,
        ap all_pushes e,
        ap all_pushes e',
        all_pushes-append before (pc ∷ after),
        all_pushes-append before (pc' ∷ after),
      ) in
      let here : count_of s.shared ≤ most s = omega arith in
      let lt = f.lower (most s) here in
      omega (
        arith,
        ranks_mono (most t) (most s) t.threads le,
        ap (ranks (most s)) e,
        ap (ranks (most s)) e',
        ranks-append (most s) before (pc ∷ after),
        ranks-append (most s) before (pc' ∷ after),
      )

  pub steps_of : {s t : System c} → Reach s t → ℕ
  steps_of start = 0
  steps_of (later r st) = steps_of r + 1

  steps-moves_left : {s t : System c} (r : Reach s t) → steps_of r + moves_left t ≤ moves_left s
  unfolding steps_of
  steps-moves_left start = omega arith
  steps-moves_left (later r st) = omega (arith, Step-moves_left st, steps-moves_left r)

  -- However the threads are scheduled, they make no more steps than this: for `l` calls and a roster
  -- of `k` records whose positive `sec` add up to `s`, `s + l * (2 * (k + l) + 2147483695)`. A round
  -- of the loop of `calculat_work_time` is a step.
  pub steps_le :
      (m : Shared c) (calls : List (Bytes × ℕ)) {t : System c} (r : Reach (at_start m calls) t)
      → steps_of r ≤ secs_in m + length calls * (2 * (count_of m + length calls) + 2147483695)
  steps_le m calls r =
      let total = steps-moves_left r in
      let bound =
        rw (all_pushes-callers calls, ranks-callers (count_of m + length calls) calls) at total in
      omega (arith, bound)
