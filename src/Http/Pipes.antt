-- ===== src/Http/Pipes.antt =====
-- server/server_http.h: the descriptors of `exec_cgi`, from the two calls of `pipe` to `waitpid`.
pub mod Laws
use face_perception.Common.{ℕ, Bool, Option, none, some, ◌==◌, if◌then◌else◌}
use face_perception.Outcome.{Outcome, done, fault, exited}

-- What a descriptor stands for: an end of the pipe to the program or from it, or anything else, by
-- a number of its own.
pub data End : Type 0 where
  input_read input_write output_read output_write : End
  other : ℕ → End

-- The open descriptors of a process.
abbrev pub Table : Type 0
Table = ℕ → Option End

abbrev pub assign_fd : Table → ℕ → Option End → Table
assign_fd t fd e i = if i == fd then e else t i

-- `close(fd)`; it fails and does nothing if `fd` is not open.
abbrev pub close : ℕ → Table → Table
close fd t = assign_fd t fd none

-- `dup2(old, fd)`, which fails if `old` is not open.
abbrev dup2_of : Option End → ℕ → Table → Table
dup2_of none fd t = t
dup2_of (some e) fd t = assign_fd t fd (some e)

abbrev pub dup2 : ℕ → ℕ → Table → Table
dup2 old fd t = dup2_of (t old) fd t

-- `cgi_input` and `cgi_output`.
pub record Fds : Type 0 where
  pub input0 : ℕ
  pub input1 : ℕ
  pub output0 : ℕ
  pub output1 : ℕ

-- `if (pipe(cgi_input) == -1) …`, for what the call returns; a call that fails leaves the zeros.
unfoldable pub open_input : Option (ℕ × ℕ) → Table → Fds × Table
open_input none t = (record { input0 = 0; input1 = 0; output0 = 0; output1 = 0 }, t)
open_input (some (r, w)) t = (
  record { input0 = r; input1 = w; output0 = 0; output1 = 0 },
  assign_fd (assign_fd t r (some input_read)) w (some input_write),
)

-- `if (pipe(cgi_output) == -1) …`
unfoldable pub open_output : Option (ℕ × ℕ) → Fds × Table → Fds × Table
open_output none (f, t) = (f, close f.input1 (close f.input0 t))
open_output (some (r, w)) (f, t) = (
  record f { output0 = r; output1 = w },
  assign_fd (assign_fd t r (some output_read)) w (some output_write),
)

-- The child up to `execl`.
unfoldable pub child_fds : Fds → Table → Table
child_fds f t = dup2 f.output1 1 (dup2 f.input0 0 (close f.output0 (close f.input1 t)))

-- The parent while it writes the body and reads the output, and at its end.
unfoldable pub parent_fds : Fds → Table → Table
parent_fds f t = close f.output1 (close f.input0 t)

unfoldable pub parent_end : Fds → Table → Table
parent_end f t = close f.output0 (close f.input1 t)

-- The tables of the child when it starts the program, and of the parent while it talks to it and at
-- the end.
pub record Tables : Type 0 where
  pub child : Table
  pub talking : Table
  pub last : Table

unfoldable pub forked : Fds × Table → Tables
forked (f, t) = record {
  child = child_fds f t;
  talking = parent_fds f t;
  last = parent_end f (parent_fds f t);
}

-- The calls of `pipe` with what they return, and whether `fork` succeeds; if not, the server exits.
unfoldable pub exec_cgi_fds : Option (ℕ × ℕ) → Option (ℕ × ℕ) → Bool → Table → Outcome Tables
exec_cgi_fds input output forks t =
    if forks then done (forked (open_output output (open_input input t))) else fault exited
