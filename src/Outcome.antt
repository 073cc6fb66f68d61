-- ===== src/Outcome.antt =====
-- What a run of C++ code comes to. The sources have no error handling of their own beyond early
-- returns: what they do outside the language's rules (a read or write outside an array, a null
-- pointer, an overflow of `int`) and a failed `assert` is a fault, which ends the run.
use face_perception.Common.{Bool, true, false, ◌≡◌, refl}

pub data Fault : Type 0 where
  out_of_bounds assertion_failed null_pointer int_overflow exited broken_pipe : Fault

-- `spins` is a loop that has not ended within the rounds that it was given, or a call that waits for
-- ever.
pub data Outcome {ℓ} (A : Type ℓ) : Type ℓ where
  done : A → Outcome A
  fault : Fault → Outcome A
  spins : Outcome A

infixl 5 ◌>>=◌ ◌>>◌
abbrev pub ◌>>=◌ {ℓ κ} : {A : Type ℓ} {B : Type κ} → Outcome A → (A → Outcome B) → Outcome B
done a >>= f = f a
fault e >>= f = fault e
spins >>= f = spins

abbrev pub ◌>>◌ {ℓ} : {B : Type ℓ} → Outcome (Unit {0}) → Outcome B → Outcome B
m >> k = m >>= λ _. k

-- `assert(b)`.
abbrev pub assert : Bool → Outcome (Unit {0})
assert true = done tt
assert false = fault assertion_failed

pub >>=-eq-done {ℓ κ} :
    {A : Type ℓ} {B : Type κ} (m : Outcome A) (f : A → Outcome B) {b : B}
    → (m >>= f) ≡ done b
    → (a : A) × (m ≡ done a) × (f a ≡ done b)
>>=-eq-done (done a) f h = (a, refl, h)
>>=-eq-done (fault e) f h = cc
>>=-eq-done spins f h = cc

pub done-injective {ℓ} : {A : Type ℓ} {a b : A} → done a ≡ done b → a ≡ b
done-injective h = cc

pub >>=-assoc {ℓ κ μ} :
    {A : Type ℓ} {B : Type κ} {C : Type μ} (m : Outcome A) (f : A → Outcome B) (g : B → Outcome C)
    → ((m >>= f) >>= g) ≡ (m >>= λ a. f a >>= g)
>>=-assoc (done a) f g = refl
>>=-assoc (fault e) f g = refl
>>=-assoc spins f g = refl

-- What holds of a result, if there is one.
abbrev pub Ensures {ℓ} : {A : Type ℓ} → (A → Type 0) → Outcome A → Type 0
Ensures P (done a) = P a
Ensures P (fault f) = Unit {0}
Ensures P spins = Unit {0}

pub Ensures->>= {ℓ} :
    {A B : Type ℓ} (P : B → Type 0) (o : Outcome A) (k : A → Outcome B)
    → ((a : A) → o ≡ done a → Ensures P (k a))
    → Ensures P (o >>= k)
Ensures->>= P (done a) k h = h a refl
Ensures->>= P (fault f) k h = tt
Ensures->>= P spins k h = tt

pub Ensures-done {ℓ} :
    {A : Type ℓ} (P : A → Type 0) (o : Outcome A) {a : A} → Ensures P o → o ≡ done a → P a
Ensures-done P o h e = rw e at h
