-- ===== src/Epoll/Line.antt =====
-- server/server.h: `get_line`. Its loop is the one of server/server_http.h, its end is not.
pub mod Laws
use face_perception.Common.{ℕ, ◌+◌, Bytes, ltb, ◌==◌, if◌then◌else◌}
use face_perception.Outcome.{Outcome, done, ◌>>=◌, ◌>>◌, assert}
use face_perception.Memory.{put}
use face_perception.Http.Line.{Input, line_loop}

-- A terminator that came is counted; otherwise a newline and a terminator are written.
unfoldable pub end_line : Bytes × ℕ × ℕ × Input → Outcome (ℕ × Bytes × Input)
end_line (buf, i, ch, input) =
    if ch == 0
    then (put buf i 0 >>= λ b. done (i + 1, b, input))
    else (do b ← put buf i b'\n'; b' ← put b (i + 1) 0; done (i + 1, b', input))

unfoldable pub get_line : ℕ → Bytes → ℕ → Input → Outcome (ℕ × Bytes × Input)
unfolding end_line
get_line fuel buf len input = do
  assert (ltb 0 len)
  read ← line_loop fuel len buf 0 0 input
  end_line read
