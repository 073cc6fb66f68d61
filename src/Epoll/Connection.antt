-- ===== src/Epoll/Connection.antt =====
-- server/server.h: `send_header`, `exec_get_file`, `exec_get` and `accept_request`, the work of a
-- thread on one connection.
pub mod Files
pub mod Laws
use face_perception.Common.{
  ℕ, zero, suc, Bool, true, false, not, ◌&&◌, Bytes, String, Option, some, none, List, [], ◌∷◌,
  ◌++◌, ltb, ◌==◌, if◌then◌else◌,
}
use face_perception.Outcome.{Outcome, done, fault, spins, null_pointer, ◌>>=◌}
use face_perception.Memory.{zeros, literal, strcpy, strcat, c_text, str_eq}
use face_perception.Http.Line.{Input}
use face_perception.Http.World.{Stat, Os, Event, sent, sent_file, closed}
use face_perception.Epoll.Line.{get_line}
use face_perception.Epoll.Request.{array_size, Request, new_request, get_method_path_url}

-- `input` is what `recv` has still to meet; the trace is oldest first.
pub record Connection : Type 0 where
  pub input : Input
  pub trace : List Event

abbrev pub emit : Event → Connection → Connection
emit e k = record k { trace = k.trace ++ e ∷ [] }

-- `memset(buf, …); strcpy(buf, "…"); send(sock, buf, strlen(buf), 0);`
unfoldable pub send_text : String → Connection → Outcome Connection
send_text s k = do
  buf ← strcpy (zeros array_size) (literal s)
  text ← c_text buf
  done (emit (sent text) k)

-- `path` is the text of the path.
unfoldable pub send_header : Bytes → ℕ → Connection → Outcome Connection
send_header path size k0 = do
  k1 ← send_text "HTTP/1.0 200 OK\r\n" k0
  k2 ← send_text "Server: jdbhttp/1.1\r\n" k1
  k3 ← send_text "COntent-Type:text/html\r\n" k2
  k4 ← send_text "\r\n" k3
  done (emit (sent_file path size) k4)

-- `while (num > 0 && strcmp(buf, "\n")) num = get_line(sock, buf, SIZE);`
unfoldable pub skip_header : ℕ → ℕ → ℕ → Bytes → Input → Outcome Input
skip_header fuel zero num buf input = spins
skip_header fuel (suc rounds) num buf input =
    let next =
      (get_line fuel buf array_size input >>= λ line.
      skip_header fuel rounds line.0 line.1 line.2) in
    if ltb 0 num
    then (str_eq buf (literal "\n") >>= λ blank. if blank then done input else next)
    else done input

-- If the file cannot be opened, `fclose` is called with a null pointer.
unfoldable pub exec_get_file : Os → ℕ → Bytes → ℕ → Connection → Outcome Connection
exec_get_file os fuel path size k = do
  input ← skip_header fuel fuel 1 (zeros array_size) k.input
  text ← c_text path
  if os.opens text then send_header text size (record k { input = input }) else fault null_pointer

unfoldable pub exec_get_stat : Os → ℕ → Bytes → Connection → Option Stat → Outcome Connection
exec_get_stat os fuel path k none = done k
exec_get_stat os fuel path k (some st) = do
  path' ← (if st.is_dir then strcat path (literal "/index.html") else done path)
  exec_get_file os fuel path' st.st_size k

unfoldable pub exec_get : Os → ℕ → Bytes → Connection → Outcome Connection
unfolding exec_get_stat
exec_get os fuel path k = do text ← c_text path; exec_get_stat os fuel path k (os.stat text)

-- A request for a program is only closed: the call of `exec_cgi` is commented out.
unfoldable pub answer : Os → ℕ → Request → Connection → Outcome Connection
answer os fuel r k =
    if not r.cgi
    then (exec_get os fuel r.path k >>= λ k'. done (emit closed k'))
    else done (emit closed k)

-- `n` is the truth of `get_line(…) != 0`. Each loop has `fuel` rounds.
unfoldable pub accept_request : Os → ℕ → Connection → Outcome Connection
unfolding answer
accept_request os fuel k = do
  (n, buf, input) ← get_line fuel (zeros array_size) array_size k.input
  if not (n == 0)
      then (get_method_path_url buf new_request >>= λ r.
          answer os fuel r (record k { input = input }))
      else done (record k { input = input })
