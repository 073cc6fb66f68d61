-- ===== src/Threads/Known/Reached.antt =====
-- server/server_http.h: threads whose queries all name users who have records, in every state that
-- they come to.
use face_perception.Common.{ℕ, Bool, ◌≡◌, refl, sym, subst, ◌∙◌, Bytes, List, [], ◌∷◌, ◌++◌, All}
use face_perception.Outcome.{done, fault, int_overflow, >>=-eq-done, done-injective}
use face_perception.Memory.{strlen}
use face_perception.Attendance.Query.{get_string}
use face_perception.Attendance.Query.Laws.{get_string-IsText}
use face_perception.Attendance.Roster.{Calendar}
use face_perception.Attendance.Roster.Lookup.{User}
use face_perception.Attendance.Roster.Invariant.{IsValid}
use face_perception.Attendance.Roster.History.{sender}
use face_perception.Threads.Places.{Point, Pc, outside, runs, waits, finished, inside, unlocks}
use face_perception.Threads.Vector.{Shared}
use face_perception.Threads.Actions.{step, enter}
use face_perception.Threads.Steps.{
  Move, acts, lock, unlock, System, callers, at_start, picks, Reach, start, later,
}
use face_perception.Threads.Mutex.{
  HasFinished, IsAmong, Fails, step_fails, step_spins, section_fails, section_spins,
}
use face_perception.Threads.Alone.{Reach_trans}
use face_perception.Threads.Ends.Over.{IsOver, all_end, one_fails, reached-LeadsOut}
use face_perception.Threads.Users.Records.{users}
use face_perception.Threads.Known.Elements.{
  Mild, Mild-weaken, Mild-fault, Mild-spins, IsHere, IsTexts, Steady,
}
use face_perception.Threads.Known.Places.{IsSafe, IsSafeAt}
use face_perception.Threads.Known.Moves.{IsStep, step-IsStep, section-Enters}

-- Each call is for a query that names one of the users.
pub data AreKnown (us : List User) : List (Bytes × ℕ) → Type 0 where
  no_calls : AreKnown us []
  one_call :
      {query : Bytes} {now : ℕ} {calls : List (Bytes × ℕ)} (u : User)
      → sender query ≡ done u
      → IsHere u us
      → AreKnown us calls
      → AreKnown us ((query, now) ∷ calls)

sender-IsTexts : (query : Bytes) {u : User} → sender query ≡ done u → IsTexts u
unfolding sender
sender-IsTexts query {u} h =
    let (len, _, h1) = >>=-eq-done (strlen query) _ h in
    let (got, e, h2) = >>=-eq-done (get_string query len) _ h1 in
    subst IsTexts (done-injective h2) (get_string-IsText query len e)

callers-IsSafe :
    {us : List User} (b : ℕ) (calls : List (Bytes × ℕ))
    → AreKnown us calls
    → All (IsSafe us b) (callers calls)
callers-IsSafe b [] no_calls = tt
callers-IsSafe b ((query, now) ∷ calls) (one_call u e h k) = (
  record { user = u; found = e; is_texts = sender-IsTexts query e; is_here = h },
  callers-IsSafe b calls k,
)

All-among :
    (P : Pc → Type 0) (before after : List Pc) (pc : Pc)
    → All P (before ++ pc ∷ after)
    → P pc × ((pc' : Pc) → P pc' → All P (before ++ pc' ∷ after))
All-among P [] after pc h = (h.0, λ pc' k. (k, h.1))
All-among P (p ∷ before) after pc h =
    let (k, g) = All-among P before after pc h.1 in (k, λ pc' i. (h.0, g pc' i))

module _ {c : Calendar} where
  -- The next step of a thread is an overflow of `int`.
  pub record Overflows (m : Shared c) (pc : Pc) : Type 0 where
    pub point : Point
    pub is_outside : pc ≡ outside (runs point)
    pub overflows : step point m ≡ fault int_overflow

  Move-IsSafe :
      {us : List User} {b : ℕ} {m m' : Shared c} {l l' : Bool} {pc pc' : Pc}
      → Move m l pc m' l' pc'
      → Steady us b m
      → IsSafe us b pc
      → Steady us b m' × IsSafe us b pc'
  Move-IsSafe {us} {b} {m} (acts {p} e) s h =
      let g : Mild (IsStep us b) (step p m) = step-IsStep p m s h in rw e at g
  Move-IsSafe lock s h = (s, h)
  Move-IsSafe {us} {b} {m} (Move.works {k} e) s h =
      let n = section-Enters k m s h in
      subst (λ (x : Shared c × Point). Steady us b x.0 × IsSafeAt us b x.1)
        (done-injective (sym n.enters ∙ e)) (n.steady, n.is_safe)
  Move-IsSafe unlock s h = (s, h)

  Fails-Overflows :
      {us : List User} {b : ℕ} {m : Shared c} {pc : Pc}
      → Steady us b m
      → IsSafe us b pc
      → Fails m pc
      → Overflows m pc
  Fails-Overflows {us} {b} {m} s h (step_fails {p} f e) =
      let g = Mild-fault (IsStep us b) (step p m) (step-IsStep p m s h) e in
      record { point = p; is_outside = refl; overflows = rw g at e }
  Fails-Overflows {us} {b} {m} s h (step_spins {p} e) =
      absurd (Mild-spins (IsStep us b) (step p m) (step-IsStep p m s h) e)
  Fails-Overflows {m} s h (section_fails {k} f e) =
      let n = section-Enters k m s h in let bad = sym n.enters ∙ e in absurd (cc)
  Fails-Overflows {m} s h (section_spins {k} e) =
      let n = section-Enters k m s h in let bad = sym n.enters ∙ e in absurd (cc)

  Reach-IsSafe :
      {us : List User} {b : ℕ} {s t : System c}
      → Reach s t
      → Steady us b s.shared
      → All (IsSafe us b) s.threads
      → Steady us b t.shared × All (IsSafe us b) t.threads
  Reach-IsSafe start st h = (st, h)
  Reach-IsSafe {us} {b} (later r (picks before after {pc} {pc'} e e' move)) st h =
      let (st', h') = Reach-IsSafe r st h in
      let (k, g) = All-among (IsSafe us b) before after pc (rw e at h') in
      let (st'', k') = Move-IsSafe move st' k in (st'', rw e' (g pc' k'))

  -- The next step of a thread at this place returns, or is an overflow of `int`.
  abbrev pub IsCalm : Shared c → Pc → Type 0
  IsCalm m (outside (runs p)) = Mild (λ _. Unit {0}) (step p m)
  IsCalm m (inside k) = Mild (λ _. Unit {0}) (enter k m)
  IsCalm m _ = Unit {0}

  IsSafe-IsCalm :
      {us : List User} {b : ℕ} (m : Shared c) (pc : Pc)
      → Steady us b m
      → IsSafe us b pc
      → IsCalm m pc
  IsSafe-IsCalm {us} {b} m (outside (runs p)) s h =
      Mild-weaken (IsStep us b) (step p m) (step-IsStep p m s h)
  IsSafe-IsCalm m (outside (waits k)) s h = tt
  IsSafe-IsCalm m (outside (finished r)) s h = tt
  IsSafe-IsCalm m (inside k) s h = let n = section-Enters k m s h in rw n.enters tt
  IsSafe-IsCalm m (unlocks p) s h = tt

  All-IsCalm :
      {us : List User} {b : ℕ} (m : Shared c) (pcs : List Pc)
      → Steady us b m
      → All (IsSafe us b) pcs
      → All (IsCalm m) pcs
  All-IsCalm m [] s h = tt
  All-IsCalm m (pc ∷ pcs) s h = (IsSafe-IsCalm m pc s h.0, All-IsCalm m pcs s h.1)

  known-IsSafe :
      (m : Shared c) (calls : List (Bytes × ℕ)) {t : System c}
      → IsValid m.roster
      → AreKnown (users m.roster.v) calls
      → Reach (at_start m calls) t
      → Steady (users m.roster.v) m.block t.shared
        × All (IsSafe (users m.roster.v) m.block) t.threads
  known-IsSafe m calls v k r =
      Reach-IsSafe r
        (record { same_users = refl; same_block = refl; carried = v.carried; named = v.named })
        (callers-IsSafe m.block calls k)

  -- The users and the array of `v` are those of `m`, and each thread's next step returns, or is an
  -- overflow of `int`.
  pub record Undisturbed (m : Shared c) (t : System c) : Type 0 where
    pub same_users : users t.shared.roster.v ≡ users m.roster.v
    pub same_block : t.shared.block ≡ m.block
    pub calm : All (IsCalm t.shared) t.threads

  -- If the roster is well formed and every query names a user who has a record, then however the
  -- threads are interleaved, the users of the records and the array of `v` stay the same, and no
  -- step of a thread fails or does not return, but for an overflow of `int`.
  pub known_users :
      (m : Shared c) (calls : List (Bytes × ℕ)) {t : System c}
      → IsValid m.roster
      → AreKnown (users m.roster.v) calls
      → Reach (at_start m calls) t
      → Undisturbed m t
  known_users m calls {t} v k r =
      let (s, h) = known-IsSafe m calls v k r in
      record {
        same_users = s.same_users;
        same_block = s.same_block;
        calm = All-IsCalm t.shared t.threads s h;
      }

  -- A state in which all threads have finished, or one overflows an `int`.
  pub data IsEnd (t : System c) : Type 0 where
    all_finished : All HasFinished t.threads → IsEnd t
    one_overflows : {pc : Pc} → IsAmong pc t.threads → Overflows t.shared pc → IsEnd t

  over-IsEnd :
      {us : List User} {b : ℕ} {t : System c}
      → Steady us b t.shared
      → All (IsSafe us b) t.threads
      → IsOver t
      → IsEnd t
  over-IsEnd s h (all_end f) = all_finished f
  over-IsEnd {us} {b} s h (one_fails {pc} i f) =
      let (k, _) = All-among (IsSafe us b) i.before i.after pc (rw i.splits at h) in
      one_overflows i (Fails-Overflows s k f)

  -- From each of these states, steps lead to one in which all threads have finished, or the next
  -- step of one is an overflow of `int`.
  pub known_users-IsEnd :
      (m : Shared c) (calls : List (Bytes × ℕ)) {t : System c}
      → IsValid m.roster
      → AreKnown (users m.roster.v) calls
      → Reach (at_start m calls) t
      → (last : System c) × Reach t last × IsEnd last
  known_users-IsEnd m calls v k r =
      let l = reached-LeadsOut calls r in
      let (s, h) = known-IsSafe m calls v k (Reach_trans r l.reached) in
      (l.last, l.reached, over-IsEnd s h l.over)
