-- ===== src/Attendance/Report/Laws.antt =====
-- The texts of the time worked can be read back.
use native.Mathlib.Nat.{pow-suc}
use face_perception.Common.{
  ℕ, zero, suc, ◌+◌, ◌-◌, ◌*◌, ◌/◌, ◌%◌, ◌^◌, ◌≤◌, ◌<◌, ◌≡◌, ◌≢◌, refl, ap, ◌∙◌, inl, inr, Bytes,
  List, [], ◌∷◌, ◌++◌, map, arith, ltb, ◌==◌, if◌then◌else◌, All, length, drop, Bool-cases,
}
use face_perception.Common.Int.{ℤ, pos, negsuc, sub_ℕ}
use face_perception.Outcome.{done}
use face_perception.Memory.{zeros}
use face_perception.Memory.Laws.{IsText, length-zeros, write_terminated, c_text_lem}
use face_perception.Attendance.Node.{UserNode}
use face_perception.Attendance.WorkTime.Laws.{IsInt, to_int_lem}
use face_perception.Attendance.Report.{int_to_str_size, digits, decimal, field_text, int_to_string}

abbrev pub IsDigit : ℕ → Type 0
IsDigit c = (b'0' ≤ c) × (c ≤ b'9')

-- The number that digits spell behind `n`.
abbrev pub value : ℕ → Bytes → ℕ
value n [] = n
value n (c ∷ s) = value (n * 10 + (c - b'0')) s

pub digits-IsDigit : (fuel n : ℕ) (out : Bytes) → All IsDigit out → All IsDigit (digits fuel n out)
unfolding digits
digits-IsDigit zero n out h = h
digits-IsDigit (suc fuel) n out h = elim (Bool-cases (ltb n 10)) [
  | inl small ↦ rw small ((omega arith, ground arith), h)
  | inr large ↦
      rw large
        (digits-IsDigit fuel (n / 10) ((b'0' + n % 10) ∷ out) ((omega arith, omega arith), h))
]

length-digits : (fuel n : ℕ) (out : Bytes) → length (digits fuel n out) ≤ fuel + length out
unfolding digits
length-digits zero n out = omega arith
length-digits (suc fuel) n out = ground (arith, length-digits fuel (n / 10) ((b'0' + n % 10) ∷ out))

tenth_lt : (fuel n : ℕ) → n < 10 ^ suc fuel → n / 10 < 10 ^ fuel
tenth_lt fuel n h = let e : 10 ^ suc fuel ≡ 10 ^ fuel * 10 = pow-suc 10 fuel in omega arith

pub value-digits :
    (fuel n : ℕ) (out : Bytes) → n < 10 ^ fuel → value 0 (digits fuel n out) ≡ value n out
unfolding digits
value-digits zero n out h = ap (λ k. value k out) {x = 0} {y = n} (omega arith)
value-digits (suc fuel) n out h = elim (Bool-cases (ltb n 10)) [
  | inl small ↦
      rw small (ap (λ k. value k out) {x = 0 * 10 + (b'0' + n - b'0')} {y = n} (omega arith))
  | inr large ↦ rw large (
      value-digits fuel (n / 10) ((b'0' + n % 10) ∷ out) (tenth_lt fuel n h)
      ∙ ap (λ k. value k out) {x = n / 10 * 10 + (b'0' + n % 10 - b'0')} {y = n} (omega arith))
]

-- The integer that a field spells.
abbrev pub read_int : Bytes → ℤ
read_int [] = pos 0
read_int (c ∷ s) = if c == b'-' then sub_ℕ 0 (value 0 s) else pos (value 0 (c ∷ s))

-- A byte of a field: a digit or a sign.
abbrev pub IsField : Bytes → Type 0
IsField = All (λ c. (c ≢ 0) × (c ≢ b':'))

digits-IsField : (s : Bytes) → All IsDigit s → IsField s
digits-IsField [] h = tt
digits-IsField (c ∷ s) h = ((ground arith, ground arith), digits-IsField s h.1)

pub decimal-IsField : (z : ℤ) → IsField (decimal z)
unfolding decimal
decimal-IsField (pos n) = digits-IsField _ (digits-IsDigit 10 n [] tt)
decimal-IsField (negsuc n) =
    ((ground arith, ground arith), digits-IsField _ (digits-IsDigit 10 (suc n) [] tt))

pub field-IsText : (s : Bytes) → IsField s → IsText s
field-IsText [] h = tt
field-IsText (c ∷ s) h = (h.0.0, field-IsText s h.1)

pub length-decimal : (z : ℤ) → length (decimal z) ≤ 11
unfolding decimal
length-decimal (pos n) = omega (arith, length-digits 10 n [])
length-decimal (negsuc n) = omega (arith, length-digits 10 (suc n) [])

-- A field never overflows its array, and is appended whole.
pub field_text_lem : (z : ℤ) → field_text z ≡ done (decimal z)
unfolding field_text
field_text_lem z = rw (
  write_terminated (zeros int_to_str_size) (decimal z)
      (omega (arith, length-decimal z, length-zeros int_to_str_size)),
  c_text_lem (decimal z) (drop (suc (length (decimal z))) (zeros int_to_str_size))
      (field-IsText (decimal z) (decimal-IsField z)),
)

read_digits : (s : Bytes) → All IsDigit s → read_int s ≡ pos (value 0 s)
read_digits [] h = refl
read_digits (c ∷ s) h = ground arith

read_int-decimal : (z : ℤ) → IsInt z → read_int (decimal z) ≡ z
unfolding decimal
read_int-decimal (pos n) h =
    read_digits (digits 10 n []) (digits-IsDigit 10 n [] tt)
    ∙ ap pos (value-digits 10 n [] (omega arith))
read_int-decimal (negsuc n) h = rw (value-digits 10 (suc n) [] (omega arith)) (ground arith)

-- The fields between the colons.
abbrev cons_head : ℕ → List Bytes → List Bytes
cons_head c [] = (c ∷ []) ∷ []
cons_head c (w ∷ ws) = (c ∷ w) ∷ ws

abbrev pub split : Bytes → List Bytes
split [] = [] ∷ []
split (c ∷ s) = if c == b':' then [] ∷ split s else cons_head c (split s)

split-append : (w s : Bytes) → IsField w → split (w ++ b':' ∷ s) ≡ w ∷ split s
split-append [] s h = refl
split-append (c ∷ w) s h = ground (arith, split-append w s h.1)

split-field : (w : Bytes) → IsField w → split w ≡ w ∷ []
split-field [] h = refl
split-field (c ∷ w) h = ground (arith, split-field w h.1)

-- The text of the time worked.
pub time_text : UserNode → Bytes
time_text n =
    decimal (pos n.days)
    ++ b':' ∷ (decimal (pos n.hour) ++ b':' ∷ (decimal (pos n.min) ++ b':' ∷ decimal n.sec))

pub int_to_string_lem : (n : UserNode) → IsInt (pos n.days) → int_to_string n ≡ done (time_text n)
unfolding int_to_string time_text
int_to_string_lem n h = rw (
  to_int_lem (pos n.days) h,
  field_text_lem (pos n.days),
  field_text_lem (pos n.hour),
  field_text_lem (pos n.min),
  field_text_lem n.sec,
)

-- The ranges of a record whose parts are all values of `int`.
pub record HasInts (n : UserNode) : Type 0 where
  pub days_fit : IsInt (pos n.days)
  pub hour_fits : IsInt (pos n.hour)
  pub min_fits : IsInt (pos n.min)
  pub sec_fits : IsInt n.sec

abbrev pub parts : UserNode → List ℤ
parts n = pos n.days ∷ pos n.hour ∷ pos n.min ∷ n.sec ∷ []

-- Splitting the text at its colons and reading the fields gives the days, the hours, the minutes
-- and the seconds back.
pub int_to_string_roundtrip :
    (n : UserNode)
    → HasInts n
    → (t : Bytes) × (int_to_string n ≡ done t) × (map read_int (split t) ≡ parts n)
unfolding time_text
int_to_string_roundtrip n h = (
  time_text n,
  int_to_string_lem n h.days_fit,
  rw (
    split-append (decimal (pos n.days)) _ (decimal-IsField (pos n.days)),
    split-append (decimal (pos n.hour)) _ (decimal-IsField (pos n.hour)),
    split-append (decimal (pos n.min)) _ (decimal-IsField (pos n.min)),
    split-field (decimal n.sec) (decimal-IsField n.sec),
    read_int-decimal (pos n.days) h.days_fit,
    read_int-decimal (pos n.hour) h.hour_fits,
    read_int-decimal (pos n.min) h.min_fits,
    read_int-decimal n.sec h.sec_fits,
  ),
)
