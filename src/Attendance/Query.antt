-- ===== src/Attendance/Query.antt =====
-- server/server_http.h: `get_string`, which reads the name and the number out of a query such as
-- name=zhoufei&id=130612.
pub mod Laws
use face_perception.Common.{
  ℕ, zero, suc, ◌+◌, Bool, true, false, ◌||◌, Bytes, [], ◌∷◌, ltb, ◌==◌, if◌then◌else◌, length,
  replicate,
}
use face_perception.Outcome.{Outcome, done, fault, out_of_bounds, ◌>>=◌, ◌>>◌, assert}
use face_perception.Memory.{zeros, deref, put, write, c_text}

-- `sizeof(tmp)` for a `char*`: the binaries of the repository are built for 32 bits, where alone
-- the conversion `(int)arg` of `accept_request` compiles.
abbrev pub pointer_size : ℕ
pointer_size = 4

-- `new char[n]`, whose bytes are not set. Any value serves: the code writes each before it reads it.
unfoldable pub new_array : ℕ → Bytes
new_array n = replicate n 0xcd

-- `while (*query++ != '=' && *query != '\0');`, and where `query` points afterwards.
unfoldable pub skip_key : Bytes → Outcome Bytes
skip_key [] = fault out_of_bounds
skip_key (c ∷ query) =
    let rest = skip_key query in
    if c == b'=' then done query else (deref query >>= λ d. if d == 0 then done query else rest)

-- `while (*query != '&' && *query != '\0') tmp[i++] = *query++;`, then `tmp`, `i` and `query`.
unfoldable pub copy_value : Bytes → ℕ → Bytes → Outcome (Bytes × ℕ × Bytes)
copy_value tmp i [] = fault out_of_bounds
copy_value tmp i (c ∷ query) =
    let rest = (do tmp' ← put tmp i c; copy_value tmp' (i + 1) query) in
    if c == b'&' || c == 0 then done (tmp, i, c ∷ query) else rest

-- The name and the number, which the C++ code returns through references.
unfoldable pub get_string : Bytes → ℕ → Outcome (Bytes × Bytes)
get_string query n = do
  assert (ltb 0 n)
  tmp ← write (new_array (n + 1)) 0 (zeros pointer_size)
  value ← skip_key query
  (tmp', i, rest) ← copy_value tmp 0 value
  tmp'' ← put tmp' i 0
  name ← c_text tmp''
  number ← skip_key rest
  id ← c_text number
  done (name, id)
