-- ===== src/Epoll/Connection/Files.antt =====
-- What a request for a file is answered with by the server on epoll, on every branch.
use face_perception.Common.{
  ℕ, zero, suc, ◌+◌, ◌≤◌, ◌<◌, ◌≡◌, ◌≢◌, refl, ap, sym, ◌∙◌, inl, inr, true, false, Bytes, List, [],
  ◌∷◌, ◌++◌, append_assoc, arith, codes, String, Option, some, none, ltb-true, if◌then◌else◌, All,
  length, drop, All-append, Bool-cases,
}
use face_perception.Outcome.{Outcome, done, fault, null_pointer}
use face_perception.Memory.{zeros, literal, str_eq}
use face_perception.Memory.Laws.{IsText, length-zeros, c_text_lem, strcat_lem, strcpy_lem}
use face_perception.Http.Line.{Input, byte, arriving}
use face_perception.Http.Line.Laws.{IsPlain, stored, length-stored, stored-IsBlank, stored_ne}
use face_perception.Http.World.{Stat, Os, Event, sent, sent_file}
use face_perception.Http.Files.Laws.{header, of_stat, resource, slash_index-IsText}
use face_perception.Epoll.Line.Laws.{get_line_lem}
use face_perception.Epoll.Request.{array_size}
use face_perception.Epoll.Connection.{
  Connection, emit, send_text, send_header, skip_header, exec_get_file, exec_get_stat, exec_get,
}

send_text_lem :
    (s : String) (k : Connection)
    → IsText (codes s)
    → length (codes s) < array_size
    → send_text s k ≡ done (emit (sent (codes s)) k)
unfolding send_text
send_text_lem s k h fits = rw (
  strcpy_lem (zeros array_size) (codes s) [] h (omega (arith, length-zeros array_size)),
  c_text_lem (codes s) (drop (suc (length (codes s))) (zeros array_size)) h,
)

-- Lines that are not empty and fit the buffer, and few enough for the fuel.
abbrev pub IsHeader : ℕ → List Bytes → Type 0
IsHeader fuel =
    All (λ h. (h ≢ []) × All IsPlain h × (length h + 2 ≤ array_size) × (length h < fuel))

skip_header_line :
    (fuel rounds num : ℕ) (l buf : Bytes) (rest : Input)
    → 0 < num
    → length buf ≡ array_size
    → str_eq buf (literal "\n") ≡ done false
    → All IsPlain l
    → length l + 2 ≤ array_size
    → length l < fuel
    → skip_header fuel (suc rounds) num buf (arriving l ++ byte b'\r' ∷ byte b'\n' ∷ rest)
      ≡ skip_header fuel rounds (length l + 1) (stored buf l) rest
unfolding skip_header
skip_header_line fuel rounds num l buf rest p n e plain fits enough = rw (
  ltb-true 0 num p,
  e,
  get_line_lem fuel array_size buf l b'\r' b'\n' rest n plain (inr (inr refl)) (omega arith) fits
      enough,
)

skip_header_blank :
    (fuel rounds num : ℕ) (buf : Bytes) (rest : Input)
    → 0 < num
    → str_eq buf (literal "\n") ≡ done true
    → skip_header fuel (suc rounds) num buf rest ≡ done rest
unfolding skip_header
skip_header_blank fuel rounds num buf rest p e = rw (ltb-true 0 num p, e)

-- The header is read to its end and no further.
pub skip_header_lem :
    (fuel rounds num : ℕ) (hs : List Bytes) (buf : Bytes) (rest : Input)
    → 0 < fuel
    → IsHeader fuel hs
    → length hs + 1 < rounds
    → 0 < num
    → length buf ≡ array_size
    → str_eq buf (literal "\n") ≡ done false
    → skip_header fuel rounds num buf (header hs rest) ≡ done rest
skip_header_lem fuel zero num hs buf rest pf h enough p n e = elim enough [ ]
skip_header_lem fuel (suc zero) num hs buf rest pf h enough p n e = absurd (omega arith)
skip_header_lem fuel (suc (suc rounds)) num [] buf rest pf h enough p n e =
    skip_header_line fuel (suc rounds) num [] buf rest p n e tt (omega arith) (omega arith)
    ∙ skip_header_blank fuel rounds 1 (stored buf []) rest (omega arith) (stored-IsBlank buf)
skip_header_lem fuel (suc (suc rounds)) num (l ∷ hs) buf rest pf h enough p n e =
    skip_header_line fuel (suc rounds) num l buf (header hs rest) p n e h.0.1 h.0.2 h.0.3
    ∙ skip_header_lem fuel (suc rounds) (length l + 1) hs (stored buf l) rest pf h.1 (omega arith)
        (omega arith) (length-stored buf l (omega arith) ∙ n) (stored_ne buf l h.0.0 h.0.1)

-- The header of an answer, and the file behind it.
abbrev pub file_events : Bytes → ℕ → List Event
file_events path len =
    sent (codes "HTTP/1.0 200 OK\r\n")
    ∷ sent (codes "Server: jdbhttp/1.1\r\n")
    ∷ sent (codes "COntent-Type:text/html\r\n")
    ∷ sent (codes "\r\n")
    ∷ sent_file path len
    ∷ []

abbrev pub emit_all : List Event → Connection → Connection
emit_all es k = record k { trace = k.trace ++ es }

send_header_lem :
    (path : Bytes) (len : ℕ) (k : Connection)
    → send_header path len k ≡ done (emit_all (file_events path len) k)
unfolding send_header
send_header_lem path len k =
    rw
      (
        send_text_lem "HTTP/1.0 200 OK\r\n" k (omega arith) (omega arith),
        send_text_lem "Server: jdbhttp/1.1\r\n" _ (omega arith) (omega arith),
        send_text_lem "COntent-Type:text/html\r\n" _ (omega arith) (omega arith),
        send_text_lem "\r\n" _ (omega arith) (omega arith),
      )
      (simp append_assoc)

-- What a request for a file comes to: nothing is sent if the path does not exist, the header and
-- the file if it does, and the server stops if the file cannot be opened.
abbrev file_answer_with : Os → Input → Connection → Option (Bytes × ℕ) → Outcome Connection
file_answer_with os rest k none = done k
file_answer_with os rest k (some (q, len)) =
    if os.opens q
    then done (emit_all (file_events q len) (record k { input = rest }))
    else fault null_pointer

unfoldable pub file_answer : Os → Bytes → Input → Connection → Outcome Connection
file_answer os p rest k = file_answer_with os rest k (resource os p)

file_answer-of_stat :
    (os : Os) (p : Bytes) (rest : Input) (k : Connection) (o : Option Stat)
    → os.stat p ≡ o
    → file_answer os p rest k ≡ file_answer_with os rest k (of_stat p o)
unfolding file_answer resource
file_answer-of_stat os p rest k o e = ap (λ x. file_answer_with os rest k (of_stat p x)) e

str_eq-zeros : str_eq (zeros array_size) (literal "\n") ≡ done false
unfolding str_eq zeros
str_eq-zeros = refl

module _ (os : Os) (fuel : ℕ) (hs : List Bytes) (rest : Input) (k : Connection)
    (input_is : k.input ≡ header hs rest) (lines : IsHeader fuel hs)
    (enough : length hs + 1 < fuel) where
  exec_get_file_lem :
      (q r : Bytes) (len : ℕ)
      → IsText q
      → exec_get_file os fuel (q ++ 0 ∷ r) len k ≡ file_answer_with os rest k (some (q, len))
  unfolding exec_get_file
  exec_get_file_lem q r len h =
      rw
        (
          input_is,
          skip_header_lem fuel fuel 1 hs (zeros array_size) rest (omega arith) lines enough
              (omega arith) (length-zeros array_size) str_eq-zeros,
          c_text_lem q r h,
        )
        (ground (arith, send_header_lem q len (record k { input = rest })))

  exec_get_stat_lem :
      (p r : Bytes) (o : Option Stat)
      → os.stat p ≡ o
      → IsText p
      → 11 ≤ length r
      → exec_get_stat os fuel (p ++ 0 ∷ r) k o ≡ file_answer os p rest k
  unfolding exec_get_stat
  exec_get_stat_lem p r none e h room = sym (file_answer-of_stat os p rest k none e)
  exec_get_stat_lem p r (some st) e h room = elim (Bool-cases st.is_dir) [
    | inl dir ↦
        rw
          (
            file_answer-of_stat os p rest k (some st) e,
            dir,
            strcat_lem p r (codes "/index.html") [] h slash_index-IsText room,
            ← append_assoc p (codes "/index.html") (0 ∷ drop 11 r),
          )
          (exec_get_file_lem (p ++ codes "/index.html") (drop 11 r) st.st_size
            (All-append (λ c. c ≢ 0) p (codes "/index.html") h slash_index-IsText))
    | inr file ↦
        rw (file_answer-of_stat os p rest k (some st) e, file) (exec_get_file_lem p r st.st_size h)
  ]

  pub exec_get-file_answer :
      (p r : Bytes)
      → IsText p
      → 11 ≤ length r
      → exec_get os fuel (p ++ 0 ∷ r) k ≡ file_answer os p rest k
  unfolding exec_get
  exec_get-file_answer p r h room =
      rw (c_text_lem p r h) (exec_get_stat_lem p r (os.stat p) refl h room)
