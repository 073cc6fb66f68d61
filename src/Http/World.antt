-- ===== src/Http/World.antt =====
-- What a thread of server_http works on: its connection, what it does to it, and the roster.
use face_perception.Common.{
  ℕ, ◌≡◌, Bool, Bytes, String, codes, List, [], ◌∷◌, ◌++◌, Option, length, drop, suc, ◌<◌, arith,
}
use face_perception.Outcome.{Outcome, done, ◌>>=◌}
use face_perception.Memory.{zeros, literal, strcpy, c_text}
use face_perception.Memory.Laws.{IsText, strcpy_lem, c_text_lem, length-zeros}
use face_perception.Attendance.Roster.{Roster}
use face_perception.Http.Line.{Input}

-- The size of the line buffers.
abbrev pub size : ℕ
size = 1024

-- What `stat` says of a path.
pub record Stat : Type 0 where
  pub is_dir : Bool
  pub st_size : ℕ

-- How a program gets on with a server that writes it an input and then reads its output, while it
-- holds the pipe of the input open: the program ends and has written some bytes; or it ends, or
-- closes its input, while the server still writes to it; or the two wait for each other, since the
-- program waits for the end of its input, or its output fills the pipe while the server still writes.
pub data Exchange : Type 0 where
  ends : Bytes → Exchange
  breaks : Exchange
  hangs : Exchange

-- The operating system: the file of a path, whether `fopen(path, "r")` succeeds, whether `fork`
-- does, the exchange with a program that is started by `execl` with an environment and an input, and
-- with a child that fails before it starts one.
pub record Os : Type 0 where
  pub stat : Bytes → Option Stat
  pub opens : Bytes → Bool
  pub forks : Bool
  pub program : Bytes → List Bytes → Bytes → Exchange
  pub dies : Bytes → Exchange

-- What the thread does to its connection, and the bytes that it hands to a program.
pub data Event : Type 0 where
  sent : Bytes → Event
  sent_file : Bytes → ℕ → Event
  piped : Bytes → Event
  closed : Event

-- `input` is what `recv` has still to meet; the trace is oldest first.
pub record World : Type 0 where
  pub input : Input
  pub trace : List Event
  pub roster : Roster

abbrev pub emit : Event → World → World
emit e w = record w { trace = w.trace ++ e ∷ [] }

-- `memset(buf, …); strcpy(buf, "…"); send(client, buf, strlen(buf), 0);`
unfoldable pub send_text : String → World → Outcome World
send_text s w = do
  buf ← strcpy (zeros size) (literal s)
  text ← c_text buf
  done (emit (sent text) w)

-- A literal that fits the buffer is sent whole.
pub send_text_lem :
    (s : String) (w : World)
    → IsText (codes s)
    → length (codes s) < size
    → send_text s w ≡ done (emit (sent (codes s)) w)
unfolding send_text
send_text_lem s w h fits = rw (
  strcpy_lem (zeros size) (codes s) [] h (omega (arith, length-zeros size)),
  c_text_lem (codes s) (drop (suc (length (codes s))) (zeros size)) h,
)
