-- ===== src/Client/Input.antt =====
-- client/client_http.h: `get_str`, which reads a line of the standard input.
pub mod Laws
use face_perception.Common.{
  ℕ, zero, suc, ◌+◌, ◌-◌, Bool, true, false, Bytes, [], ◌∷◌, ◌++◌, ltb, ◌==◌, if◌then◌else◌, length,
}
use face_perception.Outcome.{Outcome, done, fault, out_of_bounds, ◌>>=◌, ◌>>◌, assert}
use face_perception.Memory.{write, c_text, put}

-- The bytes up to the first newline, that included, but at most a number of them; and the rest.
unfoldable pub read_line : ℕ → Bytes → Bytes × Bytes
read_line zero input = ([], input)
read_line (suc n) [] = ([], [])
read_line (suc n) (c ∷ input) =
    let (line, rest) = read_line n input in if c == b'\n' then (c ∷ [], input) else (c ∷ line, rest)

-- `fgets(buf, size, stdin)`, which leaves `buf` alone at the end of the input.
unfoldable pub fgets : Bytes → ℕ → Bytes → Outcome (Bytes × Bytes)
fgets buf size [] = done (buf, [])
fgets buf size (c ∷ input) =
    let (line, rest) = read_line (size - 1) (c ∷ input) in
    (write buf 0 (line ++ 0 ∷ []) >>= λ buf'. done (buf', rest))

-- `buf[len - 1] = '\0'`, where `len` may be 0.
unfoldable pub cut_last : Bytes → ℕ → Outcome Bytes
cut_last buf zero = fault out_of_bounds
cut_last buf (suc len) = put buf len 0

-- The length with the last byte, `buf`, and the rest of the input. What `fgets` returns is not
-- looked at.
unfoldable pub get_str : Bytes → ℕ → Bytes → Outcome (ℕ × Bytes × Bytes)
unfolding cut_last
get_str buf size input = do
  assert (ltb 0 size)
  (buf', rest) ← fgets buf size input
  text ← c_text buf'
  let len = length text
  buf'' ← cut_last buf' len
  done (len, buf'', rest)
