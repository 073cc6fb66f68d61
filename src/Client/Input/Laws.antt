-- ===== src/Client/Input/Laws.antt =====
-- The lines that `get_str` reads.
use face_perception.Common.{
  ℕ, zero, suc, ◌+◌, ◌-◌, ◌≤◌, ◌<◌, ◌≡◌, ◌≢◌, refl, ◌∙◌, Bytes, [], ◌∷◌, ◌++◌, append_assoc, arith,
  ltb-true, ==_ne, All, length, length-append, drop,
}
use face_perception.Outcome.{done, fault, out_of_bounds, ◌>>=◌}
use face_perception.Memory.{write, c_text}
use face_perception.Memory.Laws.{IsText, c_text_lem, write_terminated, put-append}
use face_perception.Client.Input.{read_line, fgets, cut_last, get_str}

-- A byte of a line.
abbrev pub IsLineText : Bytes → Type 0
IsLineText = All (λ c. (c ≢ 0) × (c ≢ b'\n'))

read_line_lem :
    (n : ℕ) (t rest : Bytes)
    → IsLineText t
    → length t < n
    → read_line n (t ++ b'\n' ∷ rest) ≡ (t ++ b'\n' ∷ [], rest)
unfolding read_line
read_line_lem zero t rest h fits = elim fits [ ]
read_line_lem (suc n) [] rest h fits = refl
read_line_lem (suc n) (c ∷ t) rest h fits =
    rw (==_ne c b'\n' h.0.1, read_line_lem n t rest h.1 (omega arith))

line-IsText : (t : Bytes) → IsLineText t → IsText (t ++ b'\n' ∷ [])
line-IsText [] h = (omega arith, tt)
line-IsText (c ∷ t) h = (h.0.0, line-IsText t h.1)

fgets_read :
    (buf : Bytes) (size c : ℕ) (input : Bytes) {line rest : Bytes}
    → ◌≡◌ {A = Bytes × Bytes} (read_line (size - 1) (c ∷ input)) (line, rest)
    → fgets buf size (c ∷ input) ≡ (write buf 0 (line ++ 0 ∷ []) >>= λ b. done (b, rest))
unfolding fgets
fgets_read buf size c input e = rw e

stored :
    (buf t : Bytes)
    → length t + 2 ≤ length buf
    → write buf 0 ((t ++ b'\n' ∷ []) ++ 0 ∷ []) ≡ done (t ++ b'\n' ∷ 0 ∷ drop (length t + 2) buf)
stored buf t fits =
    let n : length (t ++ b'\n' ∷ []) ≡ length t + 1 = omega (arith, length-append t (b'\n' ∷ [])) in
    let m : suc (length t + 1) ≡ length t + 2 = omega arith in
    rw (
      write_terminated buf (t ++ b'\n' ∷ []) (omega (arith, n)),
      n,
      m,
      append_assoc t (b'\n' ∷ []) (0 ∷ drop (length t + 2) buf),
    )

fgets_lem :
    (size : ℕ) (buf t rest : Bytes)
    → IsLineText t
    → length t + 2 ≤ size
    → size ≤ length buf
    → fgets buf size (t ++ b'\n' ∷ rest) ≡ done (t ++ b'\n' ∷ 0 ∷ drop (length t + 2) buf, rest)
unfolding fgets
fgets_lem size buf [] rest h fits room =
    fgets_read buf size b'\n' rest (read_line_lem (size - 1) [] rest h (omega arith))
    ∙ rw (stored buf [] (omega arith))
fgets_lem size buf (c ∷ t) rest h fits room =
    fgets_read buf size c (t ++ b'\n' ∷ rest)
      (read_line_lem (size - 1) (c ∷ t) rest h (omega arith))
    ∙ rw (stored buf (c ∷ t) (omega arith))

-- A line that fits is read without its newline, and the length counts the newline.
pub get_str_lem :
    (size : ℕ) (buf t rest : Bytes)
    → IsLineText t
    → length t + 2 ≤ size
    → size ≤ length buf
    → get_str buf size (t ++ b'\n' ∷ rest)
      ≡ done (suc (length t), t ++ 0 ∷ 0 ∷ drop (length t + 2) buf, rest)
unfolding get_str cut_last
get_str_lem size buf t rest h fits room =
    let n : length (t ++ b'\n' ∷ []) ≡ suc (length t) =
      omega (arith, length-append t (b'\n' ∷ [])) in
    let tail = drop (length t + 2) buf in
    rw (
      ltb-true 0 size (omega arith),
      fgets_lem size buf t rest h fits room,
      ← append_assoc t (b'\n' ∷ []) (0 ∷ tail),
      c_text_lem (t ++ b'\n' ∷ []) tail (line-IsText t h),
      n,
      append_assoc t (b'\n' ∷ []) (0 ∷ tail),
      put-append t b'\n' 0 (0 ∷ tail),
    )

-- At the end of the input the byte in front of `buf` is overwritten.
pub get_str_end :
    (size : ℕ) (buf : Bytes) → 0 < size → get_str (0 ∷ buf) size [] ≡ fault out_of_bounds
unfolding get_str fgets c_text
get_str_end size buf h = rw (ltb-true 0 size h)
