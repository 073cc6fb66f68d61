-- ===== src/Threads/Alone/Find.antt =====
-- server/server_http.h: a thread in `find_id`, up to the test behind it.
use face_perception.Common.{
  ◌+◌, Bool, ◌≡◌, ap, sym, subst, ◌∙◌, inl, inr, Bool-cases, Bytes, List, [], ◌∷◌, ◌++◌, Option,
  none, some, arith, append_assoc, append-nil, length, length-append, if◌then◌else◌,
}
use face_perception.Outcome.{done, >>=-eq-done, done-injective}
use face_perception.Attendance.Node.{UserNode}
use face_perception.Attendance.Roster.{Calendar, Iterator, same_user, find_loop}
use face_perception.Threads.Places.{runs, waits, counts, finds, tests, leaves}
use face_perception.Threads.Vector.{Shared}
use face_perception.Threads.Vector.Laws.{behind, element-behind, at_end-behind, at_end-end}
use face_perception.Threads.Actions.{step}
use face_perception.Threads.Alone.{Does, ◌then◌, by_step}

module _ {c : Calendar} where
  finds_at :
      (m : Shared c) (user : UserNode) (text : Bytes) (before after : List UserNode)
      (cur : UserNode) {same : Bool}
      → m.roster.v ≡ before ++ cur ∷ after
      → same_user cur user ≡ done same
      → step (finds user text (behind m before)) m
        ≡ done (
          m,
          runs (
              if same
              then tests user text (behind m before)
              else finds user text (behind m (before ++ cur ∷ []))),
        )
  unfolding step
  finds_at m user text before after cur e h =
      let k : length (before ++ cur ∷ []) ≡ length before + 1 =
        omega (arith, length-append before (cur ∷ [])) in
      rw (at_end-behind m before after cur e, element-behind m before after cur e, h, k)

  -- `prev == v.end()` fails for an iterator to an element.
  pub tests_found :
      (m : Shared c) (user : UserNode) (text : Bytes) (before after : List UserNode)
      (cur : UserNode)
      → m.roster.v ≡ before ++ cur ∷ after
      → Does m (runs (tests user text (behind m before))) m (runs (leaves text (behind m before)))
  unfolding step
  tests_found m user text before after cur e =
      by_step {p = tests user text (behind m before)} (rw (at_end-behind m before after cur e))

  -- Where the loop ends, from the iterator between `before` and `rest`.
  pub data Found (m : Shared c) (user : UserNode) (text : Bytes) (before : List UserNode)
      : Option Iterator → Type 0 where
    hits :
        {it : Iterator}
        → m.roster.v ≡ it.before ++ it.cur ∷ it.after
        → Does m
            (runs (finds user text (behind m before)))
            m
            (runs (leaves text (behind m it.before)))
        → Found m user text before (some it)
    misses :
        Does m (runs (finds user text (behind m before))) m (waits (counts user text))
        → Found m user text before none

  finds_past :
      (m : Shared c) (user : UserNode) (text : Bytes) (before : List UserNode) (cur : UserNode)
      {it : Option Iterator}
      → Does m
          (runs (finds user text (behind m before)))
          m
          (runs (finds user text (behind m (before ++ cur ∷ []))))
      → Found m user text (before ++ cur ∷ []) it
      → Found m user text before it
  finds_past m user text before cur r (hits e q) = hits e (r then q)
  finds_past m user text before cur r (misses q) = misses (r then q)

  pub find_loop-Found :
      (m : Shared c) (user : UserNode) (text : Bytes) (before rest : List UserNode)
      {it : Option Iterator}
      → m.roster.v ≡ before ++ rest
      → find_loop before rest user ≡ done it
      → Found m user text before it
  unfolding find_loop step
  find_loop-Found m user text before [] e h = subst (Found m user text before) (done-injective h) (
      misses (
        by_step {p = finds user text (behind m before)}
          (rw (at_end-end m before (e ∙ append-nil before)))))
  find_loop-Found m user text before (cur ∷ after) e h =
      let (same, a, later) = >>=-eq-done (same_user cur user) _ h in
      elim (Bool-cases same) [
        | inl hit ↦ subst (Found m user text before) (done-injective (rw hit at later)) (
            hits e (
              by_step (finds_at m user text before after cur e (a ∙ ap done hit))
              then tests_found m user text before after cur e))
        | inr miss ↦
            finds_past m user text before cur
              (by_step (finds_at m user text before after cur e (a ∙ ap done miss)))
              (find_loop-Found m user text (before ++ cur ∷ []) after
                (e ∙ sym (append_assoc before (cur ∷ []) after)) (rw miss at later))
      ]
