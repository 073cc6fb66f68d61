-- ===== src/Threads/Vector/Laws.antt =====
-- server/server_http.h: an iterator that points between `before` and `after`.
use face_perception.Common.{
  ◌+◌, true, false, ◌≡◌, ◌≢◌, inl, inr, Bool-cases, ◌==◌, ap, sym, List, [], ◌∷◌, ◌++◌, arith,
  length, set-append, drop-append, length-append, ==_refl, ==_ne,
}
use face_perception.Outcome.{done}
use face_perception.Attendance.Node.{UserNode}
use face_perception.Attendance.Roster.{Calendar}
use face_perception.Threads.Places.{Pointer}
use face_perception.Threads.Vector.{Shared, element, at_end, store_at, push_back}

module _ {c : Calendar} where
  -- The state with these elements in the array.
  abbrev pub with_elements : Shared c → List UserNode → Shared c
  with_elements m v = record m { roster = record m.roster { v = v } }

  abbrev pub behind : Shared c → List UserNode → Pointer
  behind m before = record { block = m.block; index = length before }

  pub with_elements_self :
      (m : Shared c) {v : List UserNode} → m.roster.v ≡ v → with_elements m v ≡ m
  with_elements_self m e = ap (with_elements m) (sym e)

  pub element-behind :
      (m : Shared c) (before after : List UserNode) (cur : UserNode)
      → m.roster.v ≡ before ++ cur ∷ after
      → element m (behind m before) ≡ done cur
  unfolding element
  element-behind m before after cur e = rw (==_refl m.block, e, drop-append before (cur ∷ after))

  pub at_end-behind :
      (m : Shared c) (before after : List UserNode) (cur : UserNode)
      → m.roster.v ≡ before ++ cur ∷ after
      → at_end m (behind m before) ≡ done false
  unfolding at_end
  at_end-behind m before after cur e = rw (
    ==_refl m.block,
    e,
    ==_ne (length before) (length (before ++ cur ∷ after))
        (omega (arith, length-append before (cur ∷ after))),
  )

  pub at_end-end :
      (m : Shared c) (before : List UserNode)
      → m.roster.v ≡ before
      → at_end m (behind m before) ≡ done true
  unfolding at_end
  at_end-end m before e = rw (==_refl m.block, e, ==_refl (length before))

  pub store_at-behind :
      (m : Shared c) (before after : List UserNode) (cur new : UserNode)
      → store_at (with_elements m (before ++ cur ∷ after)) (behind m before) new
        ≡ with_elements m (before ++ new ∷ after)
  store_at-behind m before after cur new = rw (set-append before cur new after)

  pub push_back-roster :
      (m : Shared c) (n : UserNode)
      → (push_back m n).roster ≡ record m.roster { v = m.roster.v ++ n ∷ [] }
  unfolding push_back
  push_back-roster m n = elim (Bool-cases (length m.roster.v == m.capacity)) [
    | inl full ↦ rw full
    | inr room ↦ rw room
  ]

  pub push_back-console : (m : Shared c) (n : UserNode) → (push_back m n).console ≡ m.console
  unfolding push_back
  push_back-console m n = elim (Bool-cases (length m.roster.v == m.capacity)) [
    | inl full ↦ rw full
    | inr room ↦ rw room
  ]

  pub push_back-tm : (m : Shared c) (n : UserNode) → (push_back m n).tm ≡ m.tm
  unfolding push_back
  push_back-tm m n = elim (Bool-cases (length m.roster.v == m.capacity)) [
    | inl full ↦ rw full
    | inr room ↦ rw room
  ]

  -- A vector with room keeps its array.
  pub push_back-block :
      (m : Shared c) (n : UserNode)
      → length m.roster.v ≢ m.capacity
      → (push_back m n).block ≡ m.block
  unfolding push_back
  push_back-block m n h = rw (==_ne (length m.roster.v) m.capacity h)

  -- A full one moves to another.
  pub push_back-full :
      (m : Shared c) (n : UserNode)
      → length m.roster.v ≡ m.capacity
      → (push_back m n).block ≡ m.block + 1
  unfolding push_back
  push_back-full m n h = rw (h, ==_refl m.capacity)
