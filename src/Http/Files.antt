-- ===== src/Http/Files.antt =====
-- server/server_http.h: `send_header`, `exec_get_file` and `exec_get`, which answer a request for
-- a file.
pub mod Laws
use face_perception.Common.{
  ℕ, zero, suc, Bool, true, false, not, ◌&&◌, Bytes, Option, some, none, ltb, if◌then◌else◌,
}
use face_perception.Outcome.{Outcome, done, fault, spins, null_pointer, ◌>>=◌}
use face_perception.Memory.{zeros, literal, strcat, c_text, str_eq}
use face_perception.Http.Line.{Input, get_line}
use face_perception.Http.World.{size, Stat, Os, World, sent_file, emit, send_text}

-- `path` is the text of the path, and `len` the size that `stat` gave.
unfoldable pub send_header : Bytes → ℕ → World → Outcome World
send_header path len w0 = do
  w1 ← send_text "HTTP/1.0 200 OK\r\n" w0
  w2 ← send_text "Server: jdbhttp/1.1\r\n" w1
  w3 ← send_text "Content-Type:text/html\r\n" w2
  w4 ← send_text "\r\n" w3
  done (emit (sent_file path len) w4)

-- `while (num > 0 && strcmp(buf, "\n")) num = get_line(client, buf, sizeof(buf));`, and the input
-- that it leaves. Each call of `get_line` has `fuel` rounds of its own.
unfoldable pub skip_header : ℕ → ℕ → ℕ → Bytes → Input → Outcome Input
skip_header fuel zero num buf input = spins
skip_header fuel (suc rounds) num buf input =
    let next =
      (get_line fuel buf size input >>= λ line. skip_header fuel rounds line.0 line.1 line.2) in
    if ltb 0 num
    then (str_eq buf (literal "\n") >>= λ blank. if blank then done input else next)
    else done input

-- If the file cannot be opened, `fclose` is called with a null pointer.
unfoldable pub exec_get_file : Os → ℕ → Bytes → ℕ → World → Outcome World
exec_get_file os fuel path len w = do
  input ← skip_header fuel fuel 1 (zeros size) w.input
  text ← c_text path
  if os.opens text then send_header text len (record w { input = input }) else fault null_pointer

-- The array `path` gets the index of a directory behind it; the size stays that of the directory.
unfoldable pub exec_get_stat : Os → ℕ → Bytes → World → Option Stat → Outcome World
exec_get_stat os fuel path w none = done w
exec_get_stat os fuel path w (some st) = do
  path' ← (if st.is_dir then strcat path (literal "/index.html") else done path)
  exec_get_file os fuel path' st.st_size w

unfoldable pub exec_get : Os → ℕ → Bytes → World → Outcome World
unfolding exec_get_stat
exec_get os fuel path w = do text ← c_text path; exec_get_stat os fuel path w (os.stat text)
