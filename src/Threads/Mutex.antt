-- ===== src/Threads/Mutex.antt =====
-- server/server_http.h: the threads that hold the mutex, and those that wait for it.
use face_perception.Common.{
  ℕ, ◌+◌, Bool, true, false, not, ◌≡◌, refl, ap, Bytes, List, [], ◌∷◌, ◌++◌, arith, if◌then◌else◌,
  All, Option,
}
use face_perception.Outcome.{Outcome, done, fault, spins, Fault}
use face_perception.Attendance.Roster.{Calendar}
use face_perception.Threads.Places.{
  Section, Point, Free, runs, waits, finished, Pc, outside, inside, unlocks,
}
use face_perception.Threads.Vector.{Shared}
use face_perception.Threads.Actions.{step, enter}
use face_perception.Threads.Steps.{
  Move, acts, lock, works, unlock, System, callers, at_start, Step, picks, Reach, start, later,
}

-- 1 for a thread between `pthread_mutex_lock` and `pthread_mutex_unlock`.
abbrev pub holding : Pc → ℕ
holding (outside _) = 0
holding (inside _) = 1
holding (unlocks _) = 1

abbrev holders : List Pc → ℕ
holders [] = 0
holders (pc ∷ pcs) = holding pc + holders pcs

abbrev bit : Bool → ℕ
bit b = if b then 1 else 0

holders-append : (xs ys : List Pc) → holders (xs ++ ys) ≡ holders xs + holders ys
holders-append [] ys = omega arith
holders-append (x ∷ xs) ys = omega (arith, holders-append xs ys)

holders-callers : (calls : List (Bytes × ℕ)) → holders (callers calls) ≡ 0
holders-callers [] = refl
holders-callers (_ ∷ calls) = omega (arith, holders-callers calls)

abbrev is_ready : Bool → Pc → Bool
is_ready locked (outside (runs _)) = true
is_ready locked (outside (waits _)) = not locked
is_ready locked (outside (finished _)) = false
is_ready locked (inside _) = true
is_ready locked (unlocks _) = true

-- A thread that is at the end of `send_vector`.
pub data HasFinished : Pc → Type 0 where
  at_end : {report : Option Bytes} → HasFinished (outside (finished report))

-- A thread that stands between others.
pub record IsAmong (pc : Pc) (pcs : List Pc) : Type 0 where
  pub before : List Pc
  pub after : List Pc
  pub splits : pcs ≡ before ++ pc ∷ after

abbrev IsAmong-later : {pc : Pc} {pcs : List Pc} (p : Pc) → IsAmong pc pcs → IsAmong pc (p ∷ pcs)
IsAmong-later p i = record { before = p ∷ i.before; after = i.after; splits = ap (◌∷◌ p) i.splits }

HasFinished-holding : {pc : Pc} → HasFinished pc → holding pc ≡ 0
HasFinished-holding at_end = refl

HasFinished-holders : (pcs : List Pc) → All HasFinished pcs → holders pcs ≡ 0
HasFinished-holders [] h = refl
HasFinished-holders (pc ∷ pcs) h =
    omega (arith, HasFinished-holding h.0, HasFinished-holders pcs h.1)

-- What a list of threads comes to: one is ready, all have finished, or some wait and none holds the
-- mutex.
data Situation (locked : Bool) (pcs : List Pc) : Type 0 where
  one_ready : (pc : Pc) → IsAmong pc pcs → is_ready locked pc ≡ true → Situation locked pcs
  all_finished : All HasFinished pcs → Situation locked pcs
  all_wait : locked ≡ true → holders pcs ≡ 0 → Situation locked pcs

head_ready :
    {locked : Bool} {pc : Pc} {pcs : List Pc}
    → is_ready locked pc ≡ true
    → Situation locked (pc ∷ pcs)
head_ready {pc} {pcs} h = one_ready pc (record { before = []; after = pcs; splits = refl }) h

behind_finished :
    {locked : Bool} {pcs : List Pc} (r : Option Bytes)
    → Situation locked pcs
    → Situation locked (outside (finished r) ∷ pcs)
behind_finished r (one_ready pc i h) = one_ready pc (IsAmong-later _ i) h
behind_finished r (all_finished h) = all_finished (at_end, h)
behind_finished r (all_wait e h) = all_wait e (omega arith)

behind_waiting :
    {pcs : List Pc} (k : Section) → Situation true pcs → Situation true (outside (waits k) ∷ pcs)
behind_waiting k (one_ready pc i h) = one_ready pc (IsAmong-later _ i) h
behind_waiting {pcs} k (all_finished h) = all_wait refl (omega (arith, HasFinished-holders pcs h))
behind_waiting k (all_wait e h) = all_wait refl (omega arith)

situation : (locked : Bool) (pcs : List Pc) → Situation locked pcs
situation locked [] = all_finished tt
situation locked (outside (runs p) ∷ pcs) = head_ready refl
situation false (outside (waits k) ∷ pcs) = head_ready refl
situation true (outside (waits k) ∷ pcs) = behind_waiting k (situation true pcs)
situation locked (outside (finished r) ∷ pcs) = behind_finished r (situation locked pcs)
situation locked (inside k ∷ pcs) = head_ready refl
situation locked (unlocks p ∷ pcs) = head_ready refl

module _ {c : Calendar} where
  -- The mutex is locked when one thread holds it, and free when none does.
  abbrev Guarded : System c → Type 0
  Guarded s = holders s.threads ≡ bit s.locked

  Move-holding :
      {m m' : Shared c} {b b' : Bool} {pc pc' : Pc} (others : ℕ)
      → Move m b pc m' b' pc'
      → holding pc + others ≡ bit b
      → holding pc' + others ≡ bit b'
  Move-holding others (acts _) h = h
  Move-holding others lock h = omega arith
  Move-holding others (works _) h = h
  Move-holding {b = true} others unlock h = omega arith
  Move-holding {b = false} others unlock h = omega arith

  Step-Guarded : {s t : System c} → Step s t → Guarded s → Guarded t
  Step-Guarded {s} {t} (picks before after {pc} {pc'} e e' move) h =
      let k =
        Move-holding (holders before + holders after) move
          (omega (arith, h, ap holders e, holders-append before (pc ∷ after))) in
      omega (arith, k, ap holders e', holders-append before (pc' ∷ after))

  Reach-Guarded : {s t : System c} → Guarded s → Reach s t → Guarded t
  Reach-Guarded h start = h
  Reach-Guarded h (later r st) = Step-Guarded st (Reach-Guarded h r)

  calls-Guarded :
      {m : Shared c} (calls : List (Bytes × ℕ)) {t : System c}
      → Reach (at_start m calls) t
      → Guarded t
  calls-Guarded calls = Reach-Guarded (holders-callers calls)

  -- However the threads are interleaved, no two of them are between a call of `pthread_mutex_lock`
  -- and the `pthread_mutex_unlock` behind it.
  pub mutual_exclusion :
      {m : Shared c} (calls : List (Bytes × ℕ)) {t : System c} (before mid after : List Pc)
      (p q : Pc)
      → Reach (at_start m calls) t
      → t.threads ≡ before ++ p ∷ (mid ++ q ∷ after)
      → holding p ≡ 1
      → ¬ (holding q ≡ 1)
  mutual_exclusion calls before mid after p q r e h k = grind (
    arith,
    calls-Guarded calls r,
    ap holders e,
    holders-append before (p ∷ (mid ++ q ∷ after)),
    holders-append mid (q ∷ after),
  )

  -- A step that does not return: the process fails, or the loop of `calculat_work_time` goes on.
  pub data Fails (m : Shared c) : Pc → Type 0 where
    step_fails : {p : Point} (f : Fault) → step p m ≡ fault f → Fails m (outside (runs p))
    step_spins : {p : Point} → step p m ≡ spins → Fails m (outside (runs p))
    section_fails : {k : Section} (f : Fault) → enter k m ≡ fault f → Fails m (inside k)
    section_spins : {k : Section} → enter k m ≡ spins → Fails m (inside k)

  pub data Goes (m : Shared c) (locked : Bool) (pc : Pc) : Type 0 where
    moves :
        {m' : Shared c} {locked' : Bool} {pc' : Pc}
        → Move m locked pc m' locked' pc'
        → Goes m locked pc
    fails : Fails m pc → Goes m locked pc

  Outcome-Goes-step :
      (m : Shared c) (locked : Bool) (p : Point) (o : Outcome (Shared c × Free))
      → step p m ≡ o
      → Goes m locked (outside (runs p))
  Outcome-Goes-step m locked p (done (m', f)) e = moves (acts e)
  Outcome-Goes-step m locked p (fault f) e = fails (step_fails f e)
  Outcome-Goes-step m locked p spins e = fails (step_spins e)

  Outcome-Goes-enter :
      (m : Shared c) (locked : Bool) (k : Section) (o : Outcome (Shared c × Point))
      → enter k m ≡ o
      → Goes m locked (inside k)
  Outcome-Goes-enter m locked k (done (m', p)) e = moves (works e)
  Outcome-Goes-enter m locked k (fault f) e = fails (section_fails f e)
  Outcome-Goes-enter m locked k spins e = fails (section_spins e)

  is_ready-Goes :
      (m : Shared c) (locked : Bool) (pc : Pc) → is_ready locked pc ≡ true → Goes m locked pc
  is_ready-Goes m locked (outside (runs p)) h = Outcome-Goes-step m locked p _ refl
  is_ready-Goes m false (outside (waits k)) h = moves lock
  is_ready-Goes m true (outside (waits k)) h = cc
  is_ready-Goes m locked (outside (finished report)) h = cc
  is_ready-Goes m locked (inside k) h = Outcome-Goes-enter m locked k _ refl
  is_ready-Goes m locked (unlocks p) h = moves unlock

  -- The state of the threads but for the steps of one.
  pub data Onward (t : System c) : Type 0 where
    finishes : All HasFinished t.threads → Onward t
    goes_on : {u : System c} → Step t u → Onward t
    breaks : {pc : Pc} → IsAmong pc t.threads → Fails t.shared pc → Onward t

  Goes-Onward :
      {t : System c} {pc : Pc} → IsAmong pc t.threads → Goes t.shared t.locked pc → Onward t
  Goes-Onward i (moves {m'} {locked'} {pc'} mv) =
      goes_on {u = record { shared = m'; locked = locked'; threads = i.before ++ pc' ∷ i.after }}
        (picks i.before i.after i.splits refl mv)
  Goes-Onward i (fails f) = breaks i f

  Situation-Onward : {t : System c} → Guarded t → Situation t.locked t.threads → Onward t
  Situation-Onward {t} g (one_ready pc i h) = Goes-Onward i (is_ready-Goes t.shared t.locked pc h)
  Situation-Onward g (all_finished h) = finishes h
  Situation-Onward {t} g (all_wait e h) = absurd (grind (arith, g))

  -- However the threads are interleaved, the mutex does not stop them for good: in each state that
  -- they come to, all have finished, or one can move, or the next step of one is a fault or does
  -- not return.
  pub no_deadlock :
      {m : Shared c} (calls : List (Bytes × ℕ)) {t : System c}
      → Reach (at_start m calls) t
      → Onward t
  no_deadlock calls {t} r = Situation-Onward (calls-Guarded calls r) (situation t.locked t.threads)
