-- ===== src/Attendance/Roster/Find.antt =====
-- `find_id` finds the first record of a user, or that there is none.
use face_perception.Common.{
  ◌+◌, ◌%◌, ◌^◌, ◌≡◌, refl, ap, ◌∙◌, true, List, [], ◌∷◌, ◌++◌, append_assoc, append-nil, none,
  some, arith, All,
}
use face_perception.Outcome.{done}
use face_perception.Memory.Laws.{IsText, str_eq_lem}
use face_perception.Attendance.Node.{UserNode}
use face_perception.Attendance.Roster.{Roster, same_user, find_loop, find_id}
use face_perception.Attendance.Roster.Lookup.{user_of, is_of, Lacks, StandsIn}

-- A C++ string that came from a C string holds no terminator.
abbrev pub IsNamed : UserNode → Type 0
IsNamed n = IsText n.name × IsText n.id

pub same_user_lem :
    (cur head : UserNode)
    → IsNamed cur
    → IsNamed head
    → same_user cur head ≡ done (is_of (user_of head) cur)
unfolding same_user
same_user_lem cur head h k =
    rw (str_eq_lem cur.id head.id [] [] h.1 k.1, str_eq_lem cur.name head.name [] [] h.0 k.0)
      (ground arith)

pub find_loop-Lacks :
    (before rest : List UserNode) (head : UserNode)
    → IsNamed head
    → All IsNamed rest
    → Lacks (user_of head) rest
    → find_loop before rest head ≡ done none
unfolding find_loop
find_loop-Lacks before [] head k h l = refl
find_loop-Lacks before (n ∷ rest) head k h l =
    rw (same_user_lem n head h.0 k, l.0) (find_loop-Lacks (before ++ n ∷ []) rest head k h.1 l.1)

pub find_loop-stands :
    (before pre : List UserNode) (cur : UserNode) (after : List UserNode) (head : UserNode)
    → IsNamed head
    → All IsNamed (pre ++ cur ∷ after)
    → Lacks (user_of head) pre
    → is_of (user_of head) cur ≡ true
    → find_loop before (pre ++ cur ∷ after) head
      ≡ done (some (record { before = before ++ pre; cur = cur; after = after }))
unfolding find_loop
find_loop-stands before [] cur after head k h l s =
    rw (same_user_lem cur head h.0 k, s, append-nil before)
find_loop-stands before (n ∷ pre) cur after head k h l s =
    rw (same_user_lem n head h.0 k, l.0)
      (find_loop-stands (before ++ n ∷ []) pre cur after head k h.1 l.1 s
        ∙ rw (append_assoc before (n ∷ []) pre))

pub find_id-Lacks :
    (r : Roster) (head : UserNode)
    → IsNamed head
    → All IsNamed r.v
    → Lacks (user_of head) r.v
    → find_id r head ≡ done (none, record r { size = (r.size + 1) % 2 ^ 32 })
unfolding find_id
find_id-Lacks r head k h l = rw (find_loop-Lacks [] r.v head k h l)

pub find_id-StandsIn :
    (r : Roster) (head : UserNode) {before after : List UserNode} {cur : UserNode}
    → IsNamed head
    → All IsNamed r.v
    → StandsIn (user_of head) r.v before cur after
    → find_id r head ≡ done (some (record { before = before; cur = cur; after = after }), r)
unfolding find_id
find_id-StandsIn r head {before} {after} {cur} k h s = rw (
  ap (λ v. find_loop [] v head) s.splits,
  find_loop-stands [] before cur after head k (rw s.splits at h) s.lacks s.is_cur,
)
