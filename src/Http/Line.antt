-- ===== src/Http/Line.antt =====
-- server/server_http.h: `get_line`, which reads one line of a request, a byte at a time.
pub mod Laws
pub mod Limits
use face_perception.Common.{
  ℕ, zero, suc, ◌+◌, ◌-◌, Bool, true, false, not, ◌&&◌, ◌||◌, Bytes, List, [], ◌∷◌, map, ltb, ◌==◌,
  if◌then◌else◌,
}
use face_perception.Outcome.{Outcome, done, spins, ◌>>=◌, ◌>>◌, assert}
use face_perception.Memory.{put}

-- What calls of `recv(sock, &ch, 1, 0)` meet: a byte, or an error. When nothing is left of the list
-- the peer has closed the connection, and every further call returns 0.
pub data Recv : Type 0 where
  byte : ℕ → Recv
  failed : Recv

abbrev pub Input : Type 0
Input = List Recv

-- Bytes that arrive with no error between them.
abbrev pub arriving : Bytes → Input
arriving = map byte

-- Whether a byte came, the value of `ch` afterwards, and what is left. `ch` is set by a byte only.
abbrev pub recv : ℕ → Input → Bool × ℕ × Input
recv ch [] = (false, ch, [])
recv ch (byte c ∷ rest) = (true, c, rest)
recv ch (failed ∷ rest) = (false, ch, rest)

abbrev pub is_end : ℕ → Bool
is_end c = c == 0 || c == b'\n' || c == b'\r'

-- The loop, with `buf`, `i`, `ch` and the input; after any of the three ends one more byte is read.
unfoldable pub line_loop : ℕ → ℕ → Bytes → ℕ → ℕ → Input → Outcome (Bytes × ℕ × ℕ × Input)
line_loop zero size buf i ch input = spins
line_loop (suc fuel) size buf i ch input =
    let (got, c, rest) = recv ch input in
    let last = recv c rest in
    let store = (put buf i c >>= λ buf'. line_loop fuel size buf' (i + 1) c rest) in
    let again = line_loop fuel size buf i c rest in
    if ltb i (size - 1) && not (ch == b'\n')
    then (if is_end c then done (buf, i, last.1, last.2) else (if got then store else again))
    else done (buf, i, ch, input)

-- What stands behind the loop: the end of the line is written as a newline and a terminator.
unfoldable pub end_line : Bytes × ℕ × ℕ × Input → Outcome (ℕ × Bytes × Input)
end_line (buf, i, ch, input) =
    if ch == 0
    then (put buf i 0 >>= λ b. done (i, b, input))
    else (do b ← put buf i b'\n'; b' ← put b (i + 1) 0; done (i + 1, b', input))

-- The result, `buf` and what is left of the input, within `fuel` rounds.
unfoldable pub get_line : ℕ → Bytes → ℕ → Input → Outcome (ℕ × Bytes × Input)
unfolding end_line
get_line fuel buf size input = do
  assert (ltb 0 size)
  read ← line_loop fuel size buf 0 0 input
  end_line read
