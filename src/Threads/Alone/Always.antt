-- ===== src/Threads/Alone/Always.antt =====
-- server/server_http.h: a thread that runs by itself has one way to go, and comes to its end.
use face_perception.Common.{
  ℕ, Bool, false, ◌≡◌, refl, sym, subst, ap, ◌∙◌, ◌⊎◌, inl, inr, Bytes, List, [], ◌∷◌, ◌++◌, Option,
}
use face_perception.Outcome.{done, done-injective}
use face_perception.Attendance.Roster.{Calendar, Roster, send_vector}
use face_perception.Threads.Places.{Pc, outside, unlocks, runs, finished, starts}
use face_perception.Threads.Vector.{Shared}
use face_perception.Threads.Steps.{
  Move, acts, lock, works, unlock, System, at_start, picks, Reach, start, later,
}
use face_perception.Threads.Mutex.{at_end}
use face_perception.Threads.Alone.{Run, stays, goes, Run-Reach}
use face_perception.Threads.Alone.Whole.{thread_alone}
use face_perception.Threads.Alone.Sequence.{Settles}

module _ (c : Calendar) where
  -- What one thread sees of the whole.
  abbrev View : Type 0
  View = Shared c × Bool × Pc

module _ {c : Calendar} where
  abbrev Goes : View c → View c → Type 0
  Goes (m, b, pc) (m', b', pc') = Move m b pc m' b' pc'

  abbrev Comes : View c → View c → Type 0
  Comes (m, b, pc) (m', b', pc') = Run m b pc m' b' pc'

  Move-unique :
      {m m1 m2 : Shared c} {b b1 b2 : Bool} {pc pc1 pc2 : Pc}
      → Move m b pc m1 b1 pc1
      → Move m b pc m2 b2 pc2
      → ◌≡◌ {A = View c} (m1, b1, pc1) (m2, b2, pc2)
  Move-unique {b} (acts e) (acts e') = ap (λ x. (x.0, b, outside x.1)) (done-injective (sym e ∙ e'))
  Move-unique lock lock = refl
  Move-unique {b} (works e) (works e') =
      ap (λ x. (x.0, b, unlocks x.1)) (done-injective (sym e ∙ e'))
  Move-unique unlock unlock = refl

  -- A run from `s` begins with a move, if it has one.
  data Begins (s t : View c) : Type 0 where
    nothing : s ≡ t → Begins s t
    first : (u : View c) → Goes s u → Comes u t → Begins s t

  Begins-goes : {s t u : View c} → Begins s t → Goes t u → Begins s u
  Begins-goes {s} {t} {u} (nothing e) move = first u (subst (λ x. Goes x u) (sym e) move) stays
  Begins-goes (first v m run) move = first v m (goes run move)

  begins :
      {m : Shared c} {b : Bool} {pc : Pc} {m' : Shared c} {b' : Bool} {pc' : Pc}
      → Run m b pc m' b' pc'
      → Begins (m, b, pc) (m', b', pc')
  begins stays = nothing refl
  begins (goes run move) = Begins-goes (begins run) move

  -- Of two runs from one state, the one goes on to where the other has come.
  extends : (s t u : View c) → Goes s u → Comes s t → Comes u t ⊎ Comes t u
  extends s t u move run = elim (begins run) [
    | nothing e ↦ inr (subst (λ x. Comes x u) e (goes stays move))
    | first v m rest ↦ inl (subst (λ x. Comes x t) (Move-unique m move) rest)
  ]

  one_way :
      {m : Shared c} {b : Bool} {pc : Pc} (t : View c) {m' : Shared c} {b' : Bool} {pc' : Pc}
      → Comes (m, b, pc) t
      → Run m b pc m' b' pc'
      → Comes (m', b', pc') t ⊎ Comes t (m', b', pc')
  one_way t run stays = inl run
  one_way t run (goes q move) = elim (one_way t run q) [
    | inl on ↦ extends _ t _ move on
    | inr back ↦ inr (goes back move)
  ]

  -- A thread at its end does not move.
  finished_ends :
      {m m' : Shared c} {b b' : Bool} {report : Option Bytes} {pc : Pc}
      → ¬ (Move m b (outside (finished report)) m' b' pc)
  finished_ends move = elim move [ ]

  finished_stays :
      (m : Shared c) (b : Bool) (report : Option Bytes) (t : View c)
      → Comes (m, b, outside (finished report)) t
      → t ≡ (m, b, outside (finished report))
  finished_stays m b report t run = elim (begins run) [
    | nothing e ↦ sym e
    | first u move rest ↦ absurd (finished_ends move)
  ]

  -- The only thread of the whole.
  record IsRun (m : Shared c) (pc : Pc) (t : System c) : Type 0 where
    now : Pc
    only : t.threads ≡ now ∷ []
    ran : Run m false pc t.shared t.locked now

  IsRun-picks :
      {m : Shared c} {at_first : Pc} {t u : System c} (before after : List Pc) {pc pc' : Pc}
      → IsRun m at_first t
      → t.threads ≡ before ++ pc ∷ after
      → u.threads ≡ before ++ pc' ∷ after
      → Move t.shared t.locked pc u.shared u.locked pc'
      → IsRun m at_first u
  IsRun-picks {m} {at_first} {t} {u} [] after {pc} {pc'} i e e' move =
      let same : i.now ∷ [] ≡ pc ∷ after = sym i.only ∙ e in
      let head : i.now ≡ pc = cc in
      let tail : [] ≡ after = cc in
      record {
        now = pc';
        only = e' ∙ ap (◌∷◌ pc') (sym tail);
        ran =
            goes i.ran
              (subst (λ x. Move t.shared t.locked x u.shared u.locked pc') (sym head) move);
      }
  IsRun-picks (x ∷ []) after i e e' move = let same = sym i.only ∙ e in cc
  IsRun-picks (x ∷ y ∷ before) after i e e' move = let same = sym i.only ∙ e in cc

  Reach-IsRun :
      {m : Shared c} {query : Bytes} {now : ℕ} {t : System c}
      → Reach (at_start m ((query, now) ∷ [])) t
      → IsRun m (outside (runs (starts query now))) t
  Reach-IsRun start = record { now = _; only = refl; ran = stays }
  Reach-IsRun (later r (picks before after e e' move)) =
      IsRun-picks before after (Reach-IsRun r) e e' move

  -- If `send_vector` returns, a thread that is alone comes to its end from wherever it is, and
  -- leaves the roster that `send_vector` gives.
  pub alone_always :
      (m : Shared c) (query : Bytes) (now : ℕ) {out : Roster × Option Bytes} {t : System c}
      → send_vector c query now m.roster ≡ done out
      → Reach (at_start m ((query, now) ∷ [])) t
      → Settles t out.0
  alone_always m query now {out} {t} h r =
      let one = thread_alone m query now h in
      let i = Reach-IsRun r in
      let now' : View c = (t.shared, t.locked, i.now) in
      let end : View c = (one.last, false, outside (finished out.1)) in
      let onward : Comes now' end = elim (one_way now' i.ran one.ran) [
        | inl on ↦
            subst (λ x. Comes x end) (sym (finished_stays one.last false out.1 now' on)) stays
        | inr back ↦ back
      ] in
      let last : System c = record {
        shared = one.last;
        locked = false;
        threads = outside (finished out.1) ∷ [];
      } in
      record {
        last = last;
        reached =
            subst
              (λ pcs. Reach (record { shared = t.shared; locked = t.locked; threads = pcs }) last)
              (sym i.only) (Run-Reach [] [] onward);
        all_finished = (at_end, tt);
        roster = one.roster;
      }
