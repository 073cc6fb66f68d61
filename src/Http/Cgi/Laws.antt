-- ===== src/Http/Cgi/Laws.antt =====
-- What a GET request for a program comes to.
use face_perception.Common.{
  ℕ, zero, suc, ◌+◌, ◌≤◌, ◌<◌, ◌≡◌, refl, ◌∙◌, Bool, true, false, Bytes, List, [], ◌∷◌, ◌++◌,
  append_assoc, arith, codes, ltb-true, if◌then◌else◌, All, length, equal,
}
use face_perception.Outcome.{done}
use face_perception.Memory.{zeros, literal, str_case_eq}
use face_perception.Memory.Laws.{Holds, length-zeros, c_text_lem, str_eq_lem}
use face_perception.Http.Line.{Input, byte, arriving}
use face_perception.Http.Line.Laws.{IsPlain, stored, length-stored, get_line_crlf}
use face_perception.Http.World.{size, ends, Os, Event, sent, piped, World, send_text_lem}
use face_perception.Http.Files.Laws.{header, IsHeader, emit_all}
use face_perception.Http.Request.{query_size}
use face_perception.Http.Cgi.Child.{get_env, get_printed, child_env-get}
use face_perception.Http.Cgi.{clear_head, send_status, child_output, answer_by_program, exec_cgi}

case_IsBlank : (buf : Bytes) → str_case_eq (stored buf []) (literal "\n") ≡ done true
unfolding stored str_case_eq
case_IsBlank buf = refl

case_ne :
    (buf : Bytes) (c : ℕ) (text : Bytes)
    → IsPlain c
    → str_case_eq (stored buf (c ∷ text)) (literal "\n") ≡ done false
unfolding stored str_case_eq
case_ne buf c text p = ground arith

clear_head_line :
    (fuel rounds : ℕ) (l buf : Bytes) (rest : Input) (b : Bool)
    → length buf ≡ size
    → All IsPlain l
    → length l + 2 ≤ size
    → length l < fuel
    → str_case_eq (stored buf l) (literal "\n") ≡ done b
    → clear_head fuel (suc rounds) buf (arriving l ++ byte b'\r' ∷ byte b'\n' ∷ rest)
      ≡ (if b then done rest else clear_head fuel rounds (stored buf l) rest)
unfolding clear_head
clear_head_line fuel rounds l buf rest b n plain fits enough e = rw (
  get_line_crlf fuel size buf l rest n plain fits enough,
  ltb-true 0 (length l + 1) (omega arith),
  e,
)

-- The header is read to its end and no further.
clear_head_lem :
    (fuel rounds : ℕ) (hs : List Bytes) (buf : Bytes) (rest : Input)
    → 0 < fuel
    → IsHeader fuel hs
    → length hs < rounds
    → length buf ≡ size
    → clear_head fuel rounds buf (header hs rest) ≡ done rest
clear_head_lem fuel zero hs buf rest pf h enough n = elim enough [ ]
clear_head_lem fuel (suc rounds) [] buf rest pf h enough n =
    clear_head_line fuel rounds [] buf rest true n tt (omega arith) pf (case_IsBlank buf)
clear_head_lem fuel (suc rounds) ([] ∷ hs) buf rest pf h enough n = absurd (h.0.0 refl)
clear_head_lem fuel (suc rounds) ((c ∷ l) ∷ hs) buf rest pf h enough n =
    clear_head_line fuel rounds (c ∷ l) buf (header hs rest) false n h.0.1 h.0.2 h.0.3
      (case_ne buf c l h.0.1.0)
    ∙ clear_head_lem fuel rounds hs (stored buf (c ∷ l)) rest pf h.1 (omega arith)
        (length-stored buf (c ∷ l) (omega arith) ∙ n)

-- The header of the answer. The first text ends in an empty line, so the rest is part of the body.
abbrev pub status_events : List Event
status_events =
    sent (codes "HTTP/1.1 200 OK\r\n\r\n")
    ∷ sent (codes "Server: jdbhttp/1.1\r\n")
    ∷ sent (codes "Content-Type:text/html\r\n")
    ∷ sent (codes "\r\n")
    ∷ []

pub send_status_lem : (w : World) → send_status w ≡ done (emit_all status_events w)
unfolding send_status
send_status_lem w =
    rw
      (
        send_text_lem "HTTP/1.1 200 OK\r\n\r\n" w (omega arith) (omega arith),
        send_text_lem "Server: jdbhttp/1.1\r\n" _ (omega arith) (omega arith),
        send_text_lem "Content-Type:text/html\r\n" _ (omega arith) (omega arith),
        send_text_lem "\r\n" _ (omega arith) (omega arith),
      )
      (simp append_assoc)

get_not_post : (r : Bytes) → str_case_eq (codes "GET" ++ 0 ∷ r) (literal "POST") ≡ done false
unfolding str_case_eq
get_not_post r = refl

-- What is sent behind a request that hands `body` to a program which, with the child in front of it,
-- writes `output`.
abbrev pub program_events : Bytes → Bytes → List Event
program_events body output = status_events ++ piped body ∷ sent output ∷ []

module _ (os : Os) (fuel ch : ℕ) (hs : List Bytes) (rest : Input) (w : World) where
  -- The header of the request is skipped, and the answer and the output of the program are sent,
  -- which has no input.
  pub exec_cgi_get :
      (path method query p q out : Bytes)
      → os.forks ≡ true
      → os.program p (get_env q) [] ≡ ends out
      → Holds method (codes "GET")
      → Holds path p
      → Holds query q
      → length q + 14 ≤ query_size
      → w.input ≡ header hs rest
      → IsHeader fuel hs
      → length hs < fuel
      → exec_cgi os fuel ch path method query w
        ≡ done (emit_all (program_events [] (get_printed q ++ out)) (record w { input = rest }))
  unfolding exec_cgi answer_by_program child_output equal
  exec_cgi_get path method query p q out forks runs hm hp hq fits e lines enough =
      rw
        (
          hm.splits,
          hp.splits,
          str_eq_lem (codes "GET") (codes "GET") hm.rest [] hm.is_text (omega arith),
          e,
          clear_head_lem fuel fuel hs (zeros size) rest (omega arith) lines enough
              (length-zeros size),
          send_status_lem (record w { input = rest }),
          forks,
          get_not_post hm.rest,
          c_text_lem p hp.rest hp.is_text,
          child_env-get (codes "GET" ++ 0 ∷ hm.rest) query q 0
              (record { is_text = hm.is_text; rest = hm.rest; splits = refl }) hq fits,
          runs,
        )
        (simp append_assoc)
