-- ===== src/Programs/Show.antt =====
-- cgi_bin/show.cpp: the program that answers a visit. It finds the request in its environment and
-- writes a page.
pub mod Pairs
pub mod Laws
pub mod Started
use face_perception.Common.{
  ℕ, zero, suc, ◌+◌, Bool, true, false, ◌&&◌, Bytes, Option, some, none, List, [], ◌∷◌, ◌++◌, codes,
  ◌==◌, if◌then◌else◌, drop,
}
use face_perception.Common.Int.{ℤ, pos, negsuc}
use face_perception.Outcome.{Outcome, done, fault, null_pointer, out_of_bounds, ◌>>=◌}
use face_perception.Memory.{zeros, literal, put, c_text, strcpy, str_case_eq}
use face_perception.Http.Cgi.{atoi, count}

abbrev pub page_size : ℕ
page_size = 1024

abbrev pub is_null : Option ℕ → Bool
is_null none = true
is_null (some n) = false

-- The loop of `recv_str`, from the offset `i` on: the text that it leaves, and the offsets of
-- `name` and `id`. Every `&` on the way becomes a terminator; the second `=` ends the loop.
unfoldable pub split_loop : ℕ → Option ℕ → Bytes → Outcome (Bytes × Option ℕ × Option ℕ)
split_loop i name [] = fault out_of_bounds
split_loop i name (c ∷ str) =
    let name' = if c == b'=' && is_null name then some (i + 1) else name in
    let c' = if c == b'&' then 0 else c in
    let rest = (split_loop (i + 1) name' str >>= λ r. done (c' ∷ r.0, r.1, r.2)) in
    if c == 0
    then done (c ∷ str, name, none)
    else if c == b'='
    then (if is_null name then rest else done (c ∷ str, name, some (i + 1)))
    else rest

-- `cout << p`: a null pointer is no string.
unfoldable pub print_at : Bytes → Option ℕ → Outcome Bytes
print_at str none = fault null_pointer
print_at str (some n) = c_text (drop n str)

-- What `recv_str(str)` writes; the `%s` of its texts is written as it stands.
unfoldable pub recv_str : Bytes → Outcome Bytes
recv_str str = do
  r ← split_loop 0 none str
  name ← print_at r.0 r.1
  id ← print_at r.0 r.2
  done (
      codes "<p> name is :%s </p>"
      ++ (name ++ codes "\n")
      ++ (codes "<p> id   is :%s </p>" ++ (id ++ codes "\n")))

-- What is left of a text behind a prefix.
unfoldable pub strip : Bytes → Bytes → Option Bytes
strip [] s = some s
strip (x ∷ p) [] = none
strip (x ∷ p) (y ∷ s) = let rest = strip p s in if x == y then rest else none

abbrev pub or_else : Option Bytes → Option Bytes → Option Bytes
or_else (some v) o = some v
or_else none o = o

-- `getenv(name)` in an environment: the text behind `name=` in the first string that has it.
unfoldable pub getenv : List Bytes → Bytes → Option Bytes
getenv [] name = none
getenv (e ∷ env) name = or_else (strip (name ++ b'=' ∷ []) e) (getenv env name)

-- The C string that `getenv` points to.
abbrev pub value : Option Bytes → Outcome Bytes
value none = fault null_pointer
value (some t) = done (t ++ 0 ∷ [])

-- `for (; i < content_len; ++i) read(0, &data_str[i], 1);`, with the rounds that are left. At the
-- end of the input a call leaves the byte as it is.
unfoldable pub read_body : ℕ → ℕ → Bytes → Bytes → Outcome (ℕ × Bytes)
read_body zero i data_str stdin = done (i, data_str)
read_body (suc n) i data_str [] = read_body n (i + 1) data_str []
read_body (suc n) i data_str (c ∷ stdin) = do
  data_str' ← put data_str i c
  read_body n (i + 1) data_str' stdin

-- The part of `main` between the head and the tail of the page.
unfoldable pub show_request : List Bytes → Bytes → Outcome Bytes
show_request env stdin = do
  request ← value (getenv env (codes "REQUEST_STRING"))
  method ← strcpy (zeros page_size) request
  get ← str_case_eq method (literal "GET")
  post ← str_case_eq method (literal "POST")
  if get
      then (do
        query ← value (getenv env (codes "QUERY_STRING"))
        query_str ← strcpy (zeros page_size) query
        recv_str query_str)
      else if post
      then (do
        len ← value (getenv env (codes "CONTENT_LENGTH"))
        text ← c_text len
        (i, data_str) ← read_body (count (atoi text)) 0 (zeros page_size) stdin
        data_str' ← put data_str i 0
        recv_str data_str')
      else done (codes "error\n")

-- What the program writes, from its environment and its input.
unfoldable pub show : List Bytes → Bytes → Outcome Bytes
unfolding show_request
show env stdin = do
  body ← show_request env stdin
  done (
      codes "<html>\n<head> come on show world </head>\n<body>\n"
      ++ (body ++ codes "</body>\n</html>\n"))
