-- ===== src/Http/Files/Laws.antt =====
-- What a request for a file is answered with, on every branch.
use face_perception.Common.{
  ℕ, zero, suc, ◌+◌, ◌≤◌, ◌<◌, ◌≡◌, ◌≢◌, refl, ap, sym, ◌∙◌, inl, inr, true, false, Bytes, List, [],
  ◌∷◌, ◌++◌, append_assoc, arith, codes, Option, some, none, ltb-true, if◌then◌else◌, All, length,
  drop, All-append, Bool-cases,
}
use face_perception.Outcome.{Outcome, done, fault, null_pointer}
use face_perception.Memory.{zeros, literal, str_eq}
use face_perception.Memory.Laws.{IsText, length-zeros, c_text_lem, strcat_lem}
use face_perception.Http.Line.{Input, byte, arriving}
use face_perception.Http.Line.Laws.{
  IsPlain, stored, length-stored, stored-IsBlank, stored_ne, get_line_crlf,
}
use face_perception.Http.World.{size, Stat, Os, Event, sent, sent_file, World, send_text_lem}
use face_perception.Http.Files.{send_header, skip_header, exec_get_file, exec_get_stat, exec_get}

-- The lines of a header, each ended by CR LF, with an empty one at the end.
abbrev pub header : List Bytes → Input → Input
header [] rest = byte b'\r' ∷ byte b'\n' ∷ rest
header (h ∷ hs) rest = arriving h ++ byte b'\r' ∷ byte b'\n' ∷ header hs rest

-- Lines that are not empty and fit the buffer, and few enough for the fuel.
abbrev pub IsHeader : ℕ → List Bytes → Type 0
IsHeader fuel = All (λ h. (h ≢ []) × All IsPlain h × (length h + 2 ≤ size) × (length h < fuel))

skip_header_line :
    (fuel rounds num : ℕ) (l buf : Bytes) (rest : Input)
    → 0 < num
    → length buf ≡ size
    → str_eq buf (literal "\n") ≡ done false
    → All IsPlain l
    → length l + 2 ≤ size
    → length l < fuel
    → skip_header fuel (suc rounds) num buf (arriving l ++ byte b'\r' ∷ byte b'\n' ∷ rest)
      ≡ skip_header fuel rounds (length l + 1) (stored buf l) rest
unfolding skip_header
skip_header_line fuel rounds num l buf rest p n e plain fits enough =
    rw (ltb-true 0 num p, e, get_line_crlf fuel size buf l rest n plain fits enough)

skip_header_blank :
    (fuel rounds num : ℕ) (buf : Bytes) (rest : Input)
    → 0 < num
    → str_eq buf (literal "\n") ≡ done true
    → skip_header fuel (suc rounds) num buf rest ≡ done rest
unfolding skip_header
skip_header_blank fuel rounds num buf rest p e = rw (ltb-true 0 num p, e)

-- The header is read to its end and no further.
pub skip_header_lem :
    (fuel rounds num : ℕ) (hs : List Bytes) (buf : Bytes) (rest : Input)
    → 0 < fuel
    → IsHeader fuel hs
    → length hs + 1 < rounds
    → 0 < num
    → length buf ≡ size
    → str_eq buf (literal "\n") ≡ done false
    → skip_header fuel rounds num buf (header hs rest) ≡ done rest
skip_header_lem fuel zero num hs buf rest pf h enough p n e = elim enough [ ]
skip_header_lem fuel (suc zero) num hs buf rest pf h enough p n e = absurd (omega arith)
skip_header_lem fuel (suc (suc rounds)) num [] buf rest pf h enough p n e =
    skip_header_line fuel (suc rounds) num [] buf rest p n e tt (omega arith) (omega arith)
    ∙ skip_header_blank fuel rounds 1 (stored buf []) rest (omega arith) (stored-IsBlank buf)
skip_header_lem fuel (suc (suc rounds)) num (l ∷ hs) buf rest pf h enough p n e =
    skip_header_line fuel (suc rounds) num l buf (header hs rest) p n e h.0.1 h.0.2 h.0.3
    ∙ skip_header_lem fuel (suc rounds) (length l + 1) hs (stored buf l) rest pf h.1 (omega arith)
        (omega arith) (length-stored buf l (omega arith) ∙ n) (stored_ne buf l h.0.0 h.0.1)

-- The header of an answer, and the file behind it.
abbrev pub file_events : Bytes → ℕ → List Event
file_events path len =
    sent (codes "HTTP/1.0 200 OK\r\n")
    ∷ sent (codes "Server: jdbhttp/1.1\r\n")
    ∷ sent (codes "Content-Type:text/html\r\n")
    ∷ sent (codes "\r\n")
    ∷ sent_file path len
    ∷ []

abbrev pub emit_all : List Event → World → World
emit_all es w = record w { trace = w.trace ++ es }

send_header_lem :
    (path : Bytes) (len : ℕ) (w : World)
    → send_header path len w ≡ done (emit_all (file_events path len) w)
unfolding send_header
send_header_lem path len w =
    rw
      (
        send_text_lem "HTTP/1.0 200 OK\r\n" w (omega arith) (omega arith),
        send_text_lem "Server: jdbhttp/1.1\r\n" _ (omega arith) (omega arith),
        send_text_lem "Content-Type:text/html\r\n" _ (omega arith) (omega arith),
        send_text_lem "\r\n" _ (omega arith) (omega arith),
      )
      (simp append_assoc)

-- The file that is sent for a path, and its size as `stat` gave it for the path itself.
abbrev pub of_stat : Bytes → Option Stat → Option (Bytes × ℕ)
of_stat p none = none
of_stat p (some st) = some (if st.is_dir then p ++ codes "/index.html" else p, st.st_size)

unfoldable pub resource : Os → Bytes → Option (Bytes × ℕ)
resource os p = of_stat p (os.stat p)

-- What a request for a file comes to: nothing is sent if the path does not exist, the header and
-- the file if it does, and the server stops if the file cannot be opened.
abbrev answer_with : Os → Input → World → Option (Bytes × ℕ) → Outcome World
answer_with os rest w none = done w
answer_with os rest w (some (q, len)) =
    if os.opens q
    then done (emit_all (file_events q len) (record w { input = rest }))
    else fault null_pointer

unfoldable pub answer : Os → Bytes → Input → World → Outcome World
answer os p rest w = answer_with os rest w (resource os p)

answer-of_stat :
    (os : Os) (p : Bytes) (rest : Input) (w : World) (o : Option Stat)
    → os.stat p ≡ o
    → answer os p rest w ≡ answer_with os rest w (of_stat p o)
unfolding answer resource
answer-of_stat os p rest w o e = ap (λ x. answer_with os rest w (of_stat p x)) e

pub slash_index-IsText : IsText (codes "/index.html")
slash_index-IsText = omega arith

str_eq-zeros : str_eq (zeros size) (literal "\n") ≡ done false
unfolding str_eq zeros
str_eq-zeros = refl

module _ (os : Os) (fuel : ℕ) (hs : List Bytes) (rest : Input) (w : World)
    (input_is : w.input ≡ header hs rest) (lines : IsHeader fuel hs)
    (enough : length hs + 1 < fuel) where
  exec_get_file_lem :
      (q r : Bytes) (len : ℕ)
      → IsText q
      → exec_get_file os fuel (q ++ 0 ∷ r) len w ≡ answer_with os rest w (some (q, len))
  unfolding exec_get_file
  exec_get_file_lem q r len h =
      rw
        (
          input_is,
          skip_header_lem fuel fuel 1 hs (zeros size) rest (omega arith) lines enough (omega arith)
              (length-zeros size) str_eq-zeros,
          c_text_lem q r h,
        )
        (ground (arith, send_header_lem q len (record w { input = rest })))

  exec_get_stat_lem :
      (p r : Bytes) (o : Option Stat)
      → os.stat p ≡ o
      → IsText p
      → 11 ≤ length r
      → exec_get_stat os fuel (p ++ 0 ∷ r) w o ≡ answer os p rest w
  unfolding exec_get_stat
  exec_get_stat_lem p r none e h room = sym (answer-of_stat os p rest w none e)
  exec_get_stat_lem p r (some st) e h room = elim (Bool-cases st.is_dir) [
    | inl dir ↦
        rw
          (
            answer-of_stat os p rest w (some st) e,
            dir,
            strcat_lem p r (codes "/index.html") [] h slash_index-IsText room,
            ← append_assoc p (codes "/index.html") (0 ∷ drop 11 r),
          )
          (exec_get_file_lem (p ++ codes "/index.html") (drop 11 r) st.st_size
            (All-append (λ c. c ≢ 0) p (codes "/index.html") h slash_index-IsText))
    | inr file ↦
        rw (answer-of_stat os p rest w (some st) e, file) (exec_get_file_lem p r st.st_size h)
  ]

  -- Behind a header that fits, a request for a file does what `answer` says.
  pub exec_get-answer :
      (p r : Bytes)
      → IsText p
      → 11 ≤ length r
      → exec_get os fuel (p ++ 0 ∷ r) w ≡ answer os p rest w
  unfolding exec_get
  exec_get-answer p r h room = rw (c_text_lem p r h) (exec_get_stat_lem p r (os.stat p) refl h room)
