-- ===== src/Attendance/Roster/Lookup.antt =====
-- The roster as a map from users to their records.
use face_perception.Common.{
  ◌≡◌, ◌↔◌, ◌⊎◌, inl, inr, sym, ap, ◌∙◌, refl, true≢false, Bool-cases, Bool, true, false, ◌&&◌,
  Bytes, List, [], ◌∷◌, ◌++◌, Option, none, some, arith, if◌then◌else◌, equal, equal_iff, All,
}
use face_perception.Attendance.Node.{UserNode}

-- Who a record is of.
pub record User : Type 0 where
  pub name : Bytes
  pub id : Bytes

abbrev pub user_of : UserNode → User
user_of n = record { name = n.name; id = n.id }

abbrev pub is_of : User → UserNode → Bool
is_of u n = equal n.id u.id && equal n.name u.name

unfoldable pub lookup : User → List UserNode → Option UserNode
lookup u [] = none
lookup u (n ∷ ns) = if is_of u n then some n else lookup u ns

-- No record is of `u`.
abbrev pub Lacks : User → List UserNode → Type 0
Lacks u = All (λ n. is_of u n ≡ false)

-- No two records are of one user.
abbrev pub IsDistinct : List UserNode → Type 0
IsDistinct [] = Unit {0}
IsDistinct (n ∷ ns) = Lacks (user_of n) ns × IsDistinct ns

-- `cur` stands first among the records of `u` in `v`, between `before` and `after`.
pub record StandsIn (u : User) (v before : List UserNode) (cur : UserNode) (after : List UserNode)
    : Type 0 where
  pub splits : v ≡ before ++ cur ∷ after
  pub lacks : Lacks u before
  pub is_cur : is_of u cur ≡ true

pub is_of_iff : (u : User) (n : UserNode) → (is_of u n ≡ true) ↔ (user_of n ≡ u)
is_of_iff u n = ground (arith, equal_iff n.id u.id, equal_iff n.name u.name)

pub is_of-user_of : (n : UserNode) → is_of (user_of n) n ≡ true
is_of-user_of n = (is_of_iff (user_of n) n).1 refl

pub is_of-other : (u : User) (n m : UserNode) → user_of n ≡ user_of m → is_of u n ≡ is_of u m
is_of-other u n m e = ap (λ (x : User). equal x.id u.id && equal x.name u.name) e

-- Records of different users are not both of `u`.
clash :
    (u : User) (n w : UserNode) → is_of (user_of w) n ≡ false → is_of u n ≡ true → is_of u w ≡ false
clash u n w apart first = elim (Bool-cases (is_of u w)) [
  | inl second ↦ absurd (
      true≢false (
        sym ((is_of_iff (user_of w) n).1 ((is_of_iff u n).0 first ∙ sym ((is_of_iff u w).0 second)))
        ∙ apart))
  | inr other ↦ other
]

pub lookup-Lacks : (u : User) (v : List UserNode) → Lacks u v → lookup u v ≡ none
unfolding lookup
lookup-Lacks u [] h = refl
lookup-Lacks u (n ∷ v) h = ground (arith, lookup-Lacks u v h.1)

pub lookup-append :
    (u : User) (before rest : List UserNode)
    → Lacks u before
    → lookup u (before ++ rest) ≡ lookup u rest
unfolding lookup
lookup-append u [] rest h = refl
lookup-append u (n ∷ before) rest h = ground (arith, lookup-append u before rest h.1)

-- A new record of a user at the end, or in place of the record that is there, is all that changes.
pub lookup-append_new :
    (u : User) (w : UserNode) (v : List UserNode)
    → Lacks (user_of w) v
    → lookup u (v ++ w ∷ []) ≡ (if is_of u w then some w else lookup u v)
unfolding lookup
lookup-append_new u w [] h = refl
lookup-append_new u w (n ∷ v) h = elim (Bool-cases (is_of u n)) [
  | inl first ↦ rw (first, clash u n w h.0 first)
  | inr other ↦ rw other (lookup-append_new u w v h.1)
]

pub lookup-replace :
    (u : User) (before after : List UserNode) (cur new : UserNode)
    → Lacks (user_of new) before
    → user_of cur ≡ user_of new
    → lookup u (before ++ new ∷ after)
      ≡ (if is_of u new then some new else lookup u (before ++ cur ∷ after))
unfolding lookup
lookup-replace u [] after cur new h e = elim (Bool-cases (is_of u new)) [
  | inl first ↦ rw first
  | inr other ↦ rw (other, is_of-other u cur new e ∙ other)
]
lookup-replace u (n ∷ before) after cur new h e = elim (Bool-cases (is_of u n)) [
  | inl first ↦ rw (first, clash u n new h.0 first)
  | inr other ↦ rw other (lookup-replace u before after cur new h.1 e)
]

-- A user either has no record, or a first one.
pub User-cases :
    (u : User) (v : List UserNode)
    → Lacks u v
      ⊎ ((before : List UserNode) × (cur : UserNode) × (after : List UserNode) × StandsIn u v before
            cur after)
User-cases u [] = inl tt
User-cases u (n ∷ v) = elim (Bool-cases (is_of u n)) [
  | inl first ↦ inr ([], n, v, record { splits = refl; lacks = tt; is_cur = first })
  | inr other ↦ elim (User-cases u v) [
    | inl missing ↦ inl (other, missing)
    | inr (before, cur, after, s) ↦ inr (
      n ∷ before,
      cur,
      after,
      record { splits = ap (◌∷◌ n) s.splits; lacks = (other, s.lacks); is_cur = s.is_cur },
    )
  ]
]

pub lookup-StandsIn :
    {u : User} {v before after : List UserNode} {cur : UserNode}
    → StandsIn u v before cur after
    → lookup u v ≡ some cur
unfolding lookup
lookup-StandsIn {u} {v} {before} {after} {cur} s =
    rw s.splits (lookup-append u before (cur ∷ after) s.lacks ∙ rw s.is_cur)
