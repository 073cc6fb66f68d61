-- ===== src/Threads/Users/Records.antt =====
-- server/server_http.h: the users of the records, which no step on an element changes.
use face_perception.Common.{
  ℕ, zero, suc, ◌≡◌, refl, ap, List, [], ◌∷◌, ◌++◌, map, length, drop, set,
}
use face_perception.Outcome.{done, >>=-eq-done, done-injective}
use face_perception.Attendance.Node.{UserNode}
use face_perception.Attendance.Roster.{Calendar}
use face_perception.Attendance.Roster.Lookup.{User, user_of}
use face_perception.Threads.Places.{Pointer}
use face_perception.Threads.Vector.{Shared, first, alive, element, store_at, push_back}
use face_perception.Threads.Vector.Laws.{push_back-roster}

abbrev pub users : List UserNode → List User
users v = map user_of v

users-set :
    (v : List UserNode) (i : ℕ) (cur new : UserNode)
    → first (drop i v) ≡ done cur
    → user_of new ≡ user_of cur
    → users (set v i new) ≡ users v
users-set [] i cur new h e = refl
users-set (n ∷ v) zero cur new h e = rw (e, done-injective h)
users-set (n ∷ v) (suc i) cur new h e = ap (◌∷◌ (user_of n)) (users-set v i cur new h e)

users-append : (v : List UserNode) (n : UserNode) → users (v ++ n ∷ []) ≡ users v ++ user_of n ∷ []
users-append [] n = refl
users-append (m ∷ v) n = ap (◌∷◌ (user_of m)) (users-append v n)

pub length-users : (v : List UserNode) → length (users v) ≡ length v
length-users [] = refl
length-users (n ∷ v) = ap suc (length-users v)

module _ {c : Calendar} where
  pub users-store_at :
      (m : Shared c) (it : Pointer) (cur new : UserNode)
      → element m it ≡ done cur
      → user_of new ≡ user_of cur
      → users (store_at m it new).roster.v ≡ users m.roster.v
  unfolding element
  users-store_at m it cur new h e =
      let (_, _, there) = >>=-eq-done (alive m it) _ h in
      users-set m.roster.v it.index cur new there e

  pub users-push_back :
      (m : Shared c) (n : UserNode)
      → users (push_back m n).roster.v ≡ users m.roster.v ++ user_of n ∷ []
  users-push_back m n = rw (push_back-roster m n) (users-append m.roster.v n)
