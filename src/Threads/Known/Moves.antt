-- ===== src/Threads/Known/Moves.antt =====
-- server/server_http.h: the steps of a thread whose query names a user who has a record.
use face_perception.Common.{
  ℕ, true≢false, ◌<◌, false, ◌≡◌, refl, sym, subst, ap, ◌∙◌, inl, inr, Bool-cases, Bytes, List, [],
  Option, some, arith, ◌==◌, length, ==_refl, ==_ne,
}
use face_perception.Outcome.{done, done-injective}
use face_perception.Memory.{strlen, c_text}
use face_perception.Attendance.Node.{UserNode, buynode}
use face_perception.Attendance.Query.{skip_key}
use face_perception.Common.Int.{pos, leb_ℤ, ◌+ℤ◌}
use face_perception.Attendance.WorkTime.{to_int, difftime, carry_minute}
use face_perception.Attendance.WorkTime.Laws.{carry_minute-SameVisit, carry_minute-IsCarried}
use face_perception.Attendance.Report.{get_total_string}
use face_perception.Attendance.Report.Laws.{field_text_lem}
use face_perception.Attendance.Roster.{Calendar}
use face_perception.Attendance.Roster.Lookup.{User, user_of, is_of, is_of_iff}
use face_perception.Attendance.Roster.Find.{same_user_lem}
use face_perception.Threads.Places.{
  Pointer, Section, copies_name, skips_key, reads_clock, counts, signs_in, totals, appends, inserts,
  Point, starts, named, numbered, begins, finds, ends, tests, leaves, leaves_at, carries, writes,
  reports, shows, shows_row, Free,
}
use face_perception.Threads.Vector.{Shared, at_end}
use face_perception.Threads.Actions.{
  new_name, end_name, copy_name, field, append_field, step, enter,
}
use face_perception.Threads.Users.Parts.{sender-parts}
use face_perception.Threads.Users.Records.{length-users}
use face_perception.Threads.Known.Elements.{
  Mild, Mild->>=, to_int-Mild, IsHere, IsTexts, Points, Steady, Points-Holds, Steady-store_at,
}
use face_perception.Threads.Known.Places.{
  Names, Names->>=, IsAhead, IsWithin, IsSafeAt, IsSafeIn, IsSafeFree, IsHere-lt, past, field-Mild,
  still-IsCarried, append_field-IsSafeAt,
}

module _ {c : Calendar} where
  -- `it == v.end()`
  at_end-inside :
      {us : List User} {b : ℕ} {m : Shared c} (it : Pointer)
      → Steady us b m
      → it.block ≡ b
      → at_end m it ≡ done (it.index == length us)
  unfolding at_end
  at_end-inside {m} it s e =
      rw (e ∙ sym s.same_block, ==_refl m.block, sym s.same_users, length-users m.roster.v)

  abbrev pub IsStep : List User → ℕ → Shared c × Free → Type 0
  IsStep us b (m, f) = Steady us b m × IsSafeFree us b f

  still-Steady :
      {us : List User} {b : ℕ} {m : Shared c} {out : Bytes}
      → Steady us b m
      → Steady us b (record m { console = out })
  still-Steady s = record {
    same_users = s.same_users;
    same_block = s.same_block;
    carried = s.carried;
    named = s.named;
  }

  finds-IsStep :
      {us : List User} {b : ℕ} (user : UserNode) (text : Bytes) (it : Pointer) (m : Shared c)
      → Steady us b m
      → IsAhead us b user it
      → Mild (IsStep us b) (step (finds user text it) m)
  unfolding step
  finds-IsStep {us} user text it m s h =
      let lt = IsHere-lt (user_of user) us it.index h.is_ahead in
      let p : Points us _ it = record { same_block = h.same_block; index_lt = lt } in
      let held = Points-Holds s p in
      let inside : it.index == length us ≡ false = ==_ne it.index (length us) (omega (arith, lt)) in
      let there = at_end-inside it s h.same_block ∙ ap done inside in
      let known = same_user_lem held.cur user held.is_named h.is_named in
      elim (Bool-cases (is_of (user_of user) held.cur)) [
        | inl hit ↦ rw (there, held.read, known, hit) (s, p)
        | inr miss ↦
            rw (there, held.read, known, miss)
              (
                s,
                record {
                  same_block = h.same_block;
                  is_named = h.is_named;
                  is_ahead =
                      past (user_of user) us it.index (user_of held.cur) held.ahead
                        (λ same.
                          true≢false (sym ((is_of_iff (user_of user) held.cur).1 same) ∙ miss))
                        h.is_ahead;
                },
              )
      ]

  rows-IsStep :
      {us : List User} {b : ℕ} (report : Option Bytes) (it : Pointer) (m : Shared c)
      → Steady us b m
      → IsWithin us b it
      → Mild (IsStep us b) (step (shows_row report it) m)
  unfolding step
  rows-IsStep {us} {b} report it m s h = elim (Bool-cases (it.index == length us)) [
    | inl last ↦ rw (at_end-inside it s h.same_block, last) (s, tt)
    | inr more ↦
        let lt : it.index < length us = ground (arith, h.index_le) in
        let p : Points us b it = record { same_block = h.same_block; index_lt = lt } in
        let held = Points-Holds s p in
        rw (at_end-inside it s h.same_block, more, held.read)
          (still-Steady s, record { same_block = h.same_block; index_le = omega (arith, lt) })
  ]

  carries-IsStep :
      {us : List User} {b : ℕ} (it : Pointer) (m : Shared c)
      → Steady us b m
      → Points us b it
      → Mild (IsStep us b) (step (carries it) m)
  unfolding step
  carries-IsStep it m s h =
      let held = Points-Holds s h in
      elim (Bool-cases (leb_ℤ (pos 60) held.cur.sec)) [
        | inl more ↦
            let v = carry_minute-SameVisit held.cur in
            rw (held.read, more)
              (
                Steady-store_at s held (carry_minute held.cur) (ground (arith, v))
                    (carry_minute-IsCarried held.is_carried),
                h,
              )
        | inr last ↦ rw (held.read, last) (s, h)
      ]

  pub step-IsStep :
      {us : List User} {b : ℕ} (p : Point) (m : Shared c)
      → Steady us b m
      → IsSafeAt us b p
      → Mild (IsStep us b) (step p m)
  unfolding step
  step-IsStep {us} (starts query now) m s h =
      let (len, e, n) = Names->>= (strlen query) _ (subst (Names us) (sender-parts query) h) in
      let (tmp, e', n') = Names->>= (new_name len) _ n in rw (e, e') (s, n')
  step-IsStep (named tmp i rest now) m s h =
      let (name, e, n) = Names->>= (end_name tmp i) _ h in rw e (s, n)
  step-IsStep (numbered name number now) m s h =
      let (id, e, n) = Names->>= (c_text number) _ h in rw e (s, n)
  step-IsStep (begins user text) m s h =
      (s, record { same_block = s.same_block; is_named = h.0; is_ahead = h.1 })
  step-IsStep (finds user text it) m s h = finds-IsStep user text it m s h
  step-IsStep (ends user text) m s h = absurd h
  step-IsStep {us} (tests user text it) m s h =
      rw (at_end-inside it s h.same_block, ==_ne it.index (length us) (omega (arith, h.index_lt)))
        (s, h)
  step-IsStep (leaves text it) m s h =
      let held = Points-Holds s h in
      rw held.read
        (Steady-store_at s held _ refl (still-IsCarried held.cur _ refl refl held.is_carried), h)
  step-IsStep (leaves_at text it) m s h =
      let held = Points-Holds s h in
      rw held.read
        (Steady-store_at s held _ refl (still-IsCarried held.cur _ refl refl held.is_carried), h)
  step-IsStep {us} {b} (Point.works it) m s h =
      let held = Points-Holds s h in
      let sum = held.cur.sec +ℤ difftime held.cur.end_time held.cur.start_time in
      rw held.read (
        Mild->>= (λ _. Unit {0}) (IsStep us b) (to_int sum) _ (to_int-Mild sum)
          λ sec _. (
            Steady-store_at s held _ refl (still-IsCarried held.cur _ refl refl held.is_carried),
            h,
          ))
  step-IsStep (carries it) m s h = carries-IsStep it m s h
  step-IsStep {us} {b} (writes n it total time) m s h =
      let held = Points-Holds s h in
      rw held.read (
        Mild->>= (λ _. Unit {0}) (IsStep us b) (field n held.cur) _ (field-Mild n held.cur)
          λ key _. rw (field_text_lem key) (s, h))
  step-IsStep (reports report) m s h = (s, tt)
  step-IsStep (shows report) m s h =
      (still-Steady s, record { same_block = s.same_block; index_le = omega arith })
  step-IsStep (shows_row report it) m s h = rows-IsStep report it m s h

  -- A section returns.
  pub record Enters (us : List User) (b : ℕ) (k : Section) (m : Shared c) : Type 0 where
    pub next_shared : Shared c
    pub next_point : Point
    pub enters : enter k m ≡ done (next_shared, next_point)
    pub steady : Steady us b next_shared
    pub is_safe : IsSafeAt us b next_point

  reads_clock-Enters :
      {us : List User} {b : ℕ} (name id : Bytes) (now : ℕ) (m : Shared c)
      → Steady us b m
      → Names us (done (record { name = name; id = id }))
      → Enters us b (reads_clock name id now) m
  unfolding enter
  reads_clock-Enters {us} name id now m s h =
      let e = done-injective h.found in
      record {
        next_shared = record m { tm = c.localtime now };
        next_point = begins (buynode name id) (c.strftime (c.localtime now));
        enters = refl;
        steady = record {
          same_users = s.same_users;
          same_block = s.same_block;
          carried = s.carried;
          named = s.named;
        };
        is_safe = (subst IsTexts (sym e) h.is_texts, subst (λ u. IsHere u us) (sym e) h.is_here);
      }

  pub section-Enters :
      {us : List User} {b : ℕ} (k : Section) (m : Shared c)
      → Steady us b m
      → IsSafeIn us b k
      → Enters us b k m
  unfolding enter
  section-Enters (copies_name tmp query now) m s h =
      let (copied, e, n) = Names->>= (copy_name tmp query) _ h in
      record {
        next_shared = m;
        next_point = named copied.0 copied.1 copied.2 now;
        enters = rw e refl;
        steady = s;
        is_safe = n;
      }
  section-Enters (skips_key name rest now) m s h =
      let (number, e, n) = Names->>= (skip_key rest) _ h in
      record {
        next_shared = m;
        next_point = numbered name number now;
        enters = rw e refl;
        steady = s;
        is_safe = n;
      }
  section-Enters (reads_clock name id now) m s h = reads_clock-Enters name id now m s h
  section-Enters (counts user text) m s h = absurd h
  section-Enters (signs_in user text) m s h = absurd h
  section-Enters (totals it) m s h =
      let held = Points-Holds s h in
      record {
        next_shared = m;
        next_point = writes 0 it (get_total_string held.cur) [];
        enters = rw held.read refl;
        steady = s;
        is_safe = h;
      }
  section-Enters (appends n it total time buf) m s h = record {
    next_shared = m;
    next_point = append_field n it total time buf;
    enters = refl;
    steady = s;
    is_safe = append_field-IsSafeAt n it total time buf h;
  }
  section-Enters (inserts report) m s h = record {
    next_shared = m;
    next_point = shows (some report);
    enters = refl;
    steady = s;
    is_safe = tt;
  }
