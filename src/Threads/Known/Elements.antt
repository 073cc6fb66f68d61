-- ===== src/Threads/Known/Elements.antt =====
-- server/server_http.h: iterators to elements, while `v` neither grows nor moves.
use face_perception.Common.{
  ℕ, zero, suc, ◌<◌, ◌≡◌, refl, sym, subst, ◌∙◌, ◌⊎◌, Bool-cases, inl, inr, ◌&&◌, List, [], ◌∷◌,
  All, length, drop, set, arith, ==_refl,
}
use face_perception.Common.Int.{ℤ, pos, negsuc, leb_ℤ}
use face_perception.Outcome.{
  Outcome, done, fault, spins, Fault, int_overflow, ◌>>=◌, done-injective,
}
use face_perception.Memory.Laws.{IsText}
use face_perception.Attendance.Node.{UserNode}
use face_perception.Attendance.WorkTime.{to_int}
use face_perception.Attendance.WorkTime.Laws.{IsCarried}
use face_perception.Attendance.Roster.{Calendar}
use face_perception.Attendance.Roster.Lookup.{User, user_of}
use face_perception.Attendance.Roster.Find.{IsNamed}
use face_perception.Threads.Places.{Pointer}
use face_perception.Threads.Vector.{Shared, first, element, store_at}
use face_perception.Threads.Users.Records.{users, users-store_at}

-- A result of which `P` holds, or an overflow of `int`.
abbrev pub Mild {ℓ} : {A : Type ℓ} → (A → Type 0) → Outcome A → Type 0
Mild P (done a) = P a
Mild P (fault f) = f ≡ int_overflow
Mild P spins = ⊥

pub Mild->>= {ℓ} :
    {A B : Type ℓ} (Q : A → Type 0) (P : B → Type 0) (o : Outcome A) (k : A → Outcome B)
    → Mild Q o
    → ((a : A) → Q a → Mild P (k a))
    → Mild P (o >>= k)
Mild->>= Q P (done a) k h g = g a h
Mild->>= Q P (fault f) k h g = h
Mild->>= Q P spins k h g = h

pub Mild-fault {ℓ} :
    {A : Type ℓ} (P : A → Type 0) (o : Outcome A) {f : Fault}
    → Mild P o
    → o ≡ fault f
    → f ≡ int_overflow
Mild-fault P o h e = rw e at h

pub Mild-spins {ℓ} : {A : Type ℓ} (P : A → Type 0) (o : Outcome A) → Mild P o → ¬ (o ≡ spins)
Mild-spins P o h e = rw e at h

pub Mild-weaken {ℓ} :
    {A : Type ℓ} (P : A → Type 0) (o : Outcome A) → Mild P o → Mild (λ _. Unit {0}) o
Mild-weaken P (done a) h = tt
Mild-weaken P (fault f) h = h
Mild-weaken P spins h = h

pub to_int-Mild : (z : ℤ) → Mild (λ _. Unit {0}) (to_int z)
unfolding to_int
to_int-Mild z = elim (Bool-cases (leb_ℤ (negsuc 2147483647) z && leb_ℤ z (pos 2147483647))) [
  | inl fits ↦ rw fits tt
  | inr outside ↦ rw outside refl
]

-- `u` is one of the users.
abbrev pub IsHere : User → List User → Type 0
IsHere u [] = ⊥
IsHere u (w ∷ us) = (w ≡ u) ⊎ IsHere u us

-- The element at `i`.
pub first-users :
    (v : List UserNode) (i : ℕ)
    → i < length (users v)
    → (cur : UserNode) × (first (drop i v) ≡ done cur)
      × (drop i (users v) ≡ user_of cur ∷ drop (suc i) (users v))
first-users [] i h = absurd (omega arith)
first-users (n ∷ v) zero h = (n, refl, refl)
first-users (n ∷ v) (suc i) h = first-users v i (omega arith)

pub first-All :
    (P : UserNode → Type 0) (v : List UserNode) (i : ℕ) {cur : UserNode}
    → All P v
    → first (drop i v) ≡ done cur
    → P cur
first-All P [] zero h e = cc
first-All P [] (suc i) h e = cc
first-All P (n ∷ v) zero h e = subst P (done-injective e) h.0
first-All P (n ∷ v) (suc i) h e = first-All P v i h.1 e

pub All-set :
    (P : UserNode → Type 0) (v : List UserNode) (i : ℕ) (new : UserNode)
    → All P v
    → P new
    → All P (set v i new)
All-set P [] i new h k = tt
All-set P (n ∷ v) zero new h k = (k, h.1)
All-set P (n ∷ v) (suc i) new h k = (h.0, All-set P v i new h.1 k)

-- The texts of a user hold no terminator.
abbrev pub IsTexts : User → Type 0
IsTexts u = IsText u.name × IsText u.id

-- An iterator to one of the elements.
pub record Points (us : List User) (b : ℕ) (it : Pointer) : Type 0 where
  pub same_block : it.block ≡ b
  pub index_lt : it.index < length us

module _ {c : Calendar} where
  -- The users are `us`, and the elements are in the array `b`.
  pub record Steady (us : List User) (b : ℕ) (m : Shared c) : Type 0 where
    pub same_users : users m.roster.v ≡ us
    pub same_block : m.block ≡ b
    pub carried : All IsCarried m.roster.v
    pub named : All IsNamed m.roster.v

  -- What `it` points to.
  pub record Holds (us : List User) (m : Shared c) (it : Pointer) : Type 0 where
    pub cur : UserNode
    pub read : element m it ≡ done cur
    pub is_carried : IsCarried cur
    pub is_named : IsNamed cur
    pub ahead : drop it.index us ≡ user_of cur ∷ drop (suc it.index) us

  pub Points-Holds :
      {us : List User} {b : ℕ} {m : Shared c} {it : Pointer}
      → Steady us b m
      → Points us b it
      → Holds us m it
  unfolding element
  Points-Holds {us} {b} {m} {it} s p =
      let lt = rw (sym s.same_users) at p.index_lt in
      let (cur, e, ahead) = first-users m.roster.v it.index lt in
      record {
        cur = cur;
        read = rw (p.same_block ∙ sym s.same_block, ==_refl m.block) e;
        is_carried = first-All IsCarried m.roster.v it.index s.carried e;
        is_named = first-All IsNamed m.roster.v it.index s.named e;
        ahead = rw s.same_users at ahead;
      }

  -- Such a state stays one when an element is written that is of the same user.
  pub Steady-store_at :
      {us : List User} {b : ℕ} {m : Shared c} {it : Pointer}
      → Steady us b m
      → (h : Holds us m it) → (new : UserNode) → user_of new ≡ user_of h.cur
      → IsCarried new
      → Steady us b (store_at m it new)
  Steady-store_at {us} {b} {m} {it} s h new e v = record {
    same_users = users-store_at m it h.cur new h.read e ∙ s.same_users;
    same_block = s.same_block;
    carried = All-set IsCarried m.roster.v it.index new s.carried v;
    named = All-set IsNamed m.roster.v it.index new s.named (subst IsTexts (sym e) h.is_named);
  }
