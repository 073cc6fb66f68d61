-- ===== src/Http/Cgi.antt =====
-- server/server_http.h: `clear_head` and `exec_cgi`, which answer a request by a program. The two
-- calls of `pipe` are taken to succeed; Http/Pipes has the descriptors.
pub mod Number
pub mod Child
pub mod Laws
pub mod Post
pub mod Early
use face_perception.Common.{
  ℕ, zero, suc, ◌+◌, ◌-◌, ◌*◌, Bool, true, false, not, ◌&&◌, ◌||◌, Bytes, Option, some, none, List,
  [], ◌∷◌, ◌++◌, codes, ltb, leb, ◌==◌, if◌then◌else◌, drop, equal,
}
use face_perception.Common.Int.{ℤ, pos, negsuc, sub_ℕ, leb_ℤ}
use face_perception.Outcome.{Outcome, done, fault, spins, exited, broken_pipe, ◌>>=◌}
use face_perception.Memory.{zeros, literal, put, write, sprintf_s, c_text, str_eq, str_case_eq}
use face_perception.Attendance.Report.{decimal}
use face_perception.Http.Line.{Input, Recv, recv, get_line}
use face_perception.Http.Request.{method_size, query_size}
use face_perception.Http.World.{
  size, Exchange, ends, breaks, hangs, Os, World, sent, piped, emit, send_text,
}

-- `do num = get_line(…); while (num > 0 && strcasecmp(buf, "\n") != 0);`
unfoldable pub clear_head : ℕ → ℕ → Bytes → Input → Outcome Input
clear_head fuel zero buf input = spins
clear_head fuel (suc rounds) buf input = do
  line ← get_line fuel buf size input
  blank ← (if ltb 0 line.0 then str_case_eq line.1 (literal "\n") else done true)
  let next = clear_head fuel rounds line.1 line.2
  if blank then done line.2 else next

-- `strncmp(buf, s, n) == 0` for the text `s` of n bytes: the comparison stops at a difference.
unfoldable pub starts_with : Bytes → Bytes → Outcome Bool
starts_with buf [] = done true
starts_with [] (y ∷ s) = done false
starts_with (x ∷ buf) (y ∷ s) = let rest = starts_with buf s in if x == y then rest else done false

abbrev pub is_digit : ℕ → Bool
is_digit c = leb b'0' c && leb c b'9'

abbrev pub is_space : ℕ → Bool
is_space c = c == b' ' || (leb 9 c && leb c 13)

-- The digits at the front of a text, read behind `n`.
unfoldable pub read_digits : ℕ → Bytes → ℕ
read_digits n [] = n
read_digits n (c ∷ s) =
    let rest = read_digits (n * 10 + (c - b'0')) s in if is_digit c then rest else n

-- The number in decimal at the front of a text, behind spaces and with a sign.
unfoldable pub read_number : Bytes → ℤ
unfolding read_digits
read_number [] = pos 0
read_number (c ∷ s) =
    let rest = read_number s in
    if is_space c
    then rest
    else if c == b'-'
    then sub_ℕ 0 (read_digits 0 s)
    else if c == b'+'
    then pos (read_digits 0 s)
    else pos (read_digits 0 (c ∷ s))

-- The nearest `long`, which has 32 bits here.
unfoldable pub clamp : ℤ → ℤ
clamp z =
    if leb_ℤ z (pos 2147483647)
    then (if leb_ℤ (negsuc 2147483647) z then z else negsuc 2147483647)
    else pos 2147483647

-- `atoi`, which is `(int)strtol(s, NULL, 10)`: `strtol` stays at the ends of `long`, and `int` has as
-- many bits.
unfoldable pub atoi : Bytes → ℤ
unfolding read_number clamp
atoi s = clamp (read_number s)

-- The loop over the header of a POST request, which looks for its length. `atoi` starts one byte
-- behind the colon.
unfoldable pub read_length : ℕ → ℕ → ℤ → Input → Outcome (ℤ × Input)
read_length fuel zero content_length input = spins
read_length fuel (suc rounds) content_length input = do
  line ← get_line fuel (zeros size) size input
  found ← starts_with line.1 (codes "Content-Length:")
  text ← (if found then c_text (drop 16 line.1) else done [])
  let length' = if found then atoi text else content_length
  blank ← (if ltb 0 line.0 then str_eq line.1 (literal "\n") else done true)
  let next = read_length fuel rounds length' line.2
  if blank then done (length', line.2) else next

-- The header of the answer.
unfoldable pub send_status : World → Outcome World
send_status w0 = do
  w1 ← send_text "HTTP/1.1 200 OK\r\n\r\n" w0
  w2 ← send_text "Server: jdbhttp/1.1\r\n" w1
  w3 ← send_text "Content-Type:text/html\r\n" w2
  send_text "\r\n" w3

-- The child: the strings that it gives to `putenv`, and what it writes to the console, which is the
-- pipe to the parent by then.
unfoldable pub child_env : Bytes → Bytes → ℤ → Outcome (List Bytes × Bytes)
child_env method query content_length = do
  m ← sprintf_s (zeros method_size) (codes "REQUEST_METHOD:") method
  method_env ← c_text m
  get ← str_eq method (literal "GET")
  if get
      then (do
        q ← sprintf_s (zeros query_size) (codes "QUERY_STRING:") query
        query_env ← c_text q
        done (method_env ∷ query_env ∷ [], codes " GET  query env :" ++ query_env ++ codes "\n"))
      else (do
        l ←
            write (zeros method_size) 0
              (codes "CONTENT-LENGTH:" ++ decimal content_length ++ 0 ∷ [])
        content_len_env ← c_text l
        done (
          method_env ∷ content_len_env ∷ [],
          codes " POST  content len env :" ++ content_len_env ++ codes "\n",
        ))

-- All that is read from the pipe, behind what the child has printed. Writing to a pipe that nobody
-- reads any more ends the server by SIGPIPE.
abbrev pub read_output : Bytes → Exchange → Outcome Bytes
read_output printed (ends output) = done (printed ++ output)
read_output printed breaks = fault broken_pipe
read_output printed hangs = spins

unfoldable pub child_output : Os → Bytes → Bytes → Outcome (List Bytes × Bytes) → Outcome Bytes
child_output os path stdin (done (env, printed)) = read_output printed (os.program path env stdin)
child_output os path stdin (fault e) = read_output [] (os.dies stdin)
child_output os path stdin spins = read_output [] (os.dies stdin)

-- `for (i = 0; i < content_length; ++i) { recv(client, &ch, 1, 0); write(…, &ch, 1); }`: what is
-- written, and what is left. A call that gets no byte leaves `ch` as it was.
unfoldable pub forward_body : ℕ → ℕ → Input → Bytes × Input
forward_body zero ch input = ([], input)
forward_body (suc n) ch input =
    let (got, c, rest) = recv ch input in
    let (body, rest') = forward_body n c rest in (c ∷ body, rest')

abbrev pub count : ℤ → ℕ
count (pos n) = n
count (negsuc n) = 0

-- The parent, with the value of `ch` before anything is read, which the code leaves open. The
-- bytes of the output are sent one by one.
unfoldable pub answer_by_program : Os → ℕ → Bytes → Bytes → Bytes → ℤ → World → Outcome World
answer_by_program os ch path method query content_length w =
    if os.forks
    then (do
      post ← str_case_eq method (literal "POST")
      path_text ← c_text path
      let (body, input) =
          (if post then forward_body (count content_length) ch w.input else ([], w.input))
      output ← child_output os path_text body (child_env method query content_length)
      done (emit (sent output) (emit (piped body) (record w { input = input }))))
    else fault exited

abbrev pub is_minus_one : ℤ → Bool
is_minus_one (pos n) = false
is_minus_one (negsuc n) = n == 0

unfoldable pub exec_cgi : Os → ℕ → ℕ → Bytes → Bytes → Bytes → World → Outcome World
exec_cgi os fuel ch path method query w = do
  get ← str_eq method (literal "GET")
  (content_length, input) ←
      (if get
        then (clear_head fuel fuel (zeros size) w.input >>= λ i. done (pos 0, i))
        else read_length fuel fuel (pos 0) w.input)
  if not get && is_minus_one content_length
      then done (record w { input = input })
      else (send_status (record w { input = input })
          >>= answer_by_program os ch path method query content_length)
