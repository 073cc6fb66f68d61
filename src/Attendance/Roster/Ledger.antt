-- ===== src/Attendance/Roster/Ledger.antt =====
-- The roster with the order of its records forgotten: the order in which different users come does
-- not matter.
use mathlib.Core.Quot
use mathlib.Core.Quot.{Quot}
use face_perception.Common.{ℕ, ◌≡◌, ◌≢◌, sym, ap, ◌∙◌, inl, inr, Bool-cases, Bytes, List, ◌∷◌}
use face_perception.Outcome.{done, done-injective}
use face_perception.Attendance.Node.{buynode}
use face_perception.Attendance.Roster.{Calendar, Roster}
use face_perception.Attendance.Roster.Lookup.{User, is_of, lookup, is_of_iff}
use face_perception.Attendance.Roster.Invariant.{IsValid}
use face_perception.Attendance.Roster.History.{run, sender, own_times, after_visits, run-own_times}

-- Every user has the same record in both.
abbrev SameRecords : Roster → Roster → Type 0
SameRecords r r' = (u : User) → lookup u r.v ≡ lookup u r'.v

abbrev pub Ledger : Type 0
Ledger = Quot SameRecords

abbrev pub ledger : Roster → Ledger
ledger r = Quot.mk r

-- Visits of different users next to each other may change places.
pub own_times-swap :
    (j u w : User) (query query' : Bytes) (now later : ℕ) (rest : List (Bytes × ℕ))
    → sender query ≡ done u
    → sender query' ≡ done w
    → u ≢ w
    → own_times j ((query, now) ∷ (query', later) ∷ rest)
      ≡ own_times j ((query', later) ∷ (query, now) ∷ rest)
own_times-swap j u w query query' now later rest h h' apart =
    elim (Bool-cases (is_of j (buynode u.name u.id))) [
      | inl first ↦ elim (Bool-cases (is_of j (buynode w.name w.id))) [
        | inl second ↦ absurd (
            apart (
              (is_of_iff j (buynode u.name u.id)).0 first
              ∙ sym ((is_of_iff j (buynode w.name w.id)).0 second)))
        | inr other ↦ rw (h, h', first, other)
      ]
      | inr miss ↦ elim (Bool-cases (is_of j (buynode w.name w.id))) [
        | inl second ↦ rw (h, h', miss, second)
        | inr other ↦ rw (h, h', miss, other)
      ]
    ]

-- If two histories have the same visits of each user, in the same order and at the same times, and
-- all their calls return, they lead from a well-formed roster to the same records, whatever the
-- order in which the visits of different users stand.
pub run-ledger :
    (c : Calendar) (calls calls' : List (Bytes × ℕ)) (r : Roster) {s s' : Roster}
    → IsValid r
    → ((u : User) → own_times u calls ≡ own_times u calls')
    → run c calls r ≡ done s
    → run c calls' r ≡ done s'
    → ledger s ≡ ledger s'
run-ledger c calls calls' r {s} {s'} v same e e' = Quot.sound (λ u. done-injective (
    sym (run-own_times c u calls r v e)
    ∙ ap (λ ts. after_visits c u ts (lookup u r.v)) (same u)
    ∙ run-own_times c u calls' r v e'))
