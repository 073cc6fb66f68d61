-- ===== src/Http/Cgi/Number.antt =====
-- The number that `atoi` reads back from what `sprintf` has written with %d.
use face_perception.Common.{ℕ, ◌+◌, ◌-◌, ◌*◌, ◌≤◌, ◌≡◌, refl, Bytes, [], ◌∷◌, ◌++◌, All, arith}
use face_perception.Common.Int.{ℤ, pos}
use face_perception.Attendance.Report.{digits, decimal}
use face_perception.Attendance.Report.Laws.{IsDigit, value, digits-IsDigit, value-digits}
use face_perception.Attendance.WorkTime.Laws.{IsInt}
use face_perception.Http.Cgi.{read_digits, read_number, clamp, atoi}

read_digits-value :
    (n : ℕ) (s : Bytes) → All IsDigit s → read_digits n (s ++ b'\n' ∷ []) ≡ value n s
unfolding read_digits
read_digits-value n [] h = refl
read_digits-value n (c ∷ s) h = ground (arith, read_digits-value (n * 10 + (c - b'0')) s h.1)

read_number-value : (s : Bytes) → All IsDigit s → read_number (s ++ b'\n' ∷ []) ≡ pos (value 0 s)
unfolding read_number
read_number-value [] h = refl
read_number-value (c ∷ s) h = ground (arith, read_digits-value 0 (c ∷ s) h)

clamp_lem : (z : ℤ) → IsInt z → clamp z ≡ z
unfolding clamp
clamp_lem z h = ground arith

-- An `int` is read back.
pub atoi-decimal : (n : ℕ) → n ≤ 2147483647 → atoi (decimal (pos n) ++ b'\n' ∷ []) ≡ pos n
unfolding atoi decimal
atoi-decimal n h =
    let e = read_number-value (digits 10 n []) (digits-IsDigit 10 n [] tt) in
    let k : value 0 (digits 10 n []) ≡ n = value-digits 10 n [] (omega arith) in
    rw (e, k) (clamp_lem (pos n) (record { at_least = omega arith; at_most = omega arith }))
