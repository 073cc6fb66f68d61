-- ===== src/Http/Cgi/Post.antt =====
-- What a POST request for a program comes to.
use face_perception.Common.{
  ℕ, zero, suc, ◌+◌, ◌≤◌, ◌<◌, ◌≡◌, ◌≢◌, refl, ap, false, ◌∙◌, inl, inr, Bool, true, false, ◌&&◌,
  Bytes, List, [], ◌∷◌, ◌++◌, append_assoc, arith, codes, ltb-true, if◌then◌else◌, All, All-append,
  length, length-append, drop, equal, ◌==◌, Bool-cases,
}
use face_perception.Common.Int.{ℤ, pos}
use face_perception.Outcome.{done}
use face_perception.Memory.{zeros, literal, str_eq, str_case_eq, c_text}
use face_perception.Memory.Laws.{IsText, Holds, length-zeros, c_text_lem, str_eq_lem}
use face_perception.Http.Line.{Input, byte, arriving}
use face_perception.Http.Line.Laws.{IsPlain, stored, get_line_crlf, stored-IsBlank, stored_ne}
use face_perception.Http.World.{size, ends, Os, World}
use face_perception.Http.Files.Laws.{header, IsHeader, emit_all}
use face_perception.Attendance.Report.{decimal}
use face_perception.Http.Cgi.Number.{atoi-decimal}
use face_perception.Http.Cgi.Child.{post_env, post_printed, child_env-post}
use face_perception.Http.Cgi.Laws.{program_events, send_status_lem}
use face_perception.Http.Cgi.{
  starts_with, atoi, read_length, child_output, forward_body, answer_by_program, exec_cgi,
}

-- Whether a line starts with a text.
unfoldable pub has_prefix : Bytes → Bytes → Bool
has_prefix [] l = true
has_prefix (y ∷ s) [] = false
has_prefix (y ∷ s) (x ∷ l) = x == y && has_prefix s l

abbrev pub length_name : Bytes
length_name = codes "Content-Length:"

-- The length that the lines of a header give: the last line of the name counts, and `acc` is what
-- stands before them. The number is read behind the byte that follows the colon.
abbrev pub declared : ℤ → List Bytes → ℤ
declared acc [] = acc
declared acc (l ∷ hs) =
    declared (if has_prefix length_name l then atoi (drop 16 (l ++ b'\n' ∷ [])) else acc) hs

starts_with_lem :
    (s l r : Bytes)
    → All (λ c. c ≢ b'\n') s
    → starts_with (l ++ b'\n' ∷ r) s ≡ done (has_prefix s l)
unfolding starts_with has_prefix
starts_with_lem [] [] r h = refl
starts_with_lem [] (x ∷ l) r h = refl
starts_with_lem (y ∷ s) [] r h = ground arith
starts_with_lem (y ∷ s) (x ∷ l) r h = ground (arith, starts_with_lem s l r h.1)

has_prefix-length : (s l : Bytes) → has_prefix s l ≡ true → length s ≤ length l
unfolding has_prefix
has_prefix-length [] l e = omega arith
has_prefix-length (y ∷ s) [] e = cc
has_prefix-length (y ∷ s) (x ∷ l) e = ground (arith, has_prefix-length s l)

drop-append_le : (n : ℕ) (xs ys : Bytes) → n ≤ length xs → drop n (xs ++ ys) ≡ drop n xs ++ ys
drop-append_le zero xs ys h = refl
drop-append_le (suc n) [] ys h = elim h [ ]
drop-append_le (suc n) (x ∷ xs) ys h = drop-append_le n xs ys (omega arith)

drop-IsText : (n : ℕ) (t : Bytes) → IsText t → IsText (drop n t)
drop-IsText zero t h = h
drop-IsText (suc n) [] h = tt
drop-IsText (suc n) (c ∷ t) h = drop-IsText n t h.1

plain-IsText : (l : Bytes) → All IsPlain l → IsText l
plain-IsText [] h = tt
plain-IsText (c ∷ l) h = (h.0.0, plain-IsText l h.1)

-- The text from which `atoi` reads.
number_text :
    (l r : Bytes)
    → All IsPlain l
    → has_prefix length_name l ≡ true
    → c_text (drop 16 (l ++ b'\n' ∷ 0 ∷ r)) ≡ done (drop 16 (l ++ b'\n' ∷ []))
number_text l r h e =
    let t = l ++ b'\n' ∷ [] in
    let n : 16 ≤ length t =
      omega (arith, has_prefix-length length_name l e, length-append l (b'\n' ∷ [])) in
    let text = All-append (λ c. c ≢ 0) l (b'\n' ∷ []) (plain-IsText l h) (omega arith, tt) in
    rw (← append_assoc l (b'\n' ∷ []) (0 ∷ r), drop-append_le 16 t (0 ∷ r) n)
      (c_text_lem (drop 16 t) r (drop-IsText 16 t text))

read_length_line :
    (fuel rounds : ℕ) (acc : ℤ) (l : Bytes) (rest : Input) (b : Bool)
    → All IsPlain l
    → length l + 2 ≤ size
    → length l < fuel
    → str_eq (stored (zeros size) l) (literal "\n") ≡ done b
    → read_length fuel (suc rounds) acc (arriving l ++ byte b'\r' ∷ byte b'\n' ∷ rest) ≡ (
        if b
        then done (declared acc (l ∷ []), rest)
        else read_length fuel rounds (declared acc (l ∷ [])) rest)
unfolding read_length stored
read_length_line fuel rounds acc l rest b plain fits enough e =
    let r = drop (length l + 2) (zeros size) in
    elim (Bool-cases (has_prefix length_name l)) [
      | inl named ↦ rw (
        get_line_crlf fuel size (zeros size) l rest (length-zeros size) plain fits enough,
        starts_with_lem length_name l (0 ∷ r) (omega arith),
        named,
        number_text l r plain named,
        ltb-true 0 (length l + 1) (omega arith),
        e,
      )
      | inr other ↦ rw (
        get_line_crlf fuel size (zeros size) l rest (length-zeros size) plain fits enough,
        starts_with_lem length_name l (0 ∷ r) (omega arith),
        other,
        ltb-true 0 (length l + 1) (omega arith),
        e,
      )
    ]

-- The header is read to its end, and gives the length that its lines declare.
read_length_lem :
    (fuel rounds : ℕ) (acc : ℤ) (hs : List Bytes) (rest : Input)
    → 0 < fuel
    → IsHeader fuel hs
    → length hs < rounds
    → read_length fuel rounds acc (header hs rest) ≡ done (declared acc hs, rest)
unfolding has_prefix
read_length_lem fuel zero acc hs rest pf h enough = elim enough [ ]
read_length_lem fuel (suc rounds) acc [] rest pf h enough =
    read_length_line fuel rounds acc [] rest true tt (omega arith) pf (stored-IsBlank (zeros size))
read_length_lem fuel (suc rounds) acc (l ∷ hs) rest pf h enough =
    read_length_line fuel rounds acc l (header hs rest) false h.0.1 h.0.2 h.0.3
      (stored_ne (zeros size) l h.0.0 h.0.1)
    ∙ read_length_lem fuel rounds (declared acc (l ∷ [])) hs rest pf h.1 (omega arith)

post_is_post : (r : Bytes) → str_case_eq (codes "POST" ++ 0 ∷ r) (literal "POST") ≡ done true
unfolding str_case_eq
post_is_post r = refl

-- The last line of a header that gives a length gives `n`, in decimal.
pub record Declares (n : ℕ) (hs : List Bytes) : Type 0 where
  pub before : List Bytes
  pub after : List Bytes
  pub splits : hs ≡ before ++ (codes "Content-Length: " ++ decimal (pos n)) ∷ after
  pub last : All (λ l. has_prefix length_name l ≡ false) after
  pub is_int : n ≤ 2147483647

declared-none :
    (acc : ℤ) (hs : List Bytes)
    → All (λ l. has_prefix length_name l ≡ false) hs
    → declared acc hs ≡ acc
declared-none acc [] h = refl
declared-none acc (l ∷ hs) h = rw h.0 (declared-none acc hs h.1)

declared-append :
    (before after : List Bytes) (acc : ℤ)
    → declared acc (before ++ after) ≡ declared (declared acc before) after
declared-append [] after acc = refl
declared-append (l ∷ before) after acc = declared-append before after (declared acc (l ∷ []))

Declares-declared : (n : ℕ) (hs : List Bytes) → Declares n hs → declared (pos 0) hs ≡ pos n
unfolding has_prefix
Declares-declared n hs d =
    let line : Bytes = codes "Content-Length: " ++ decimal (pos n) in
    ap (declared (pos 0)) d.splits
    ∙ declared-append d.before (line ∷ d.after) (pos 0)
    ∙ declared-none _ d.after d.last
    ∙ atoi-decimal n d.is_int

module _ (os : Os) (fuel ch : ℕ) (hs : List Bytes) (w : World) where
  -- A POST request whose header declares `n` bytes, by what the loop over them forwards.
  pub exec_cgi-forward_body :
      (path method query p out : Bytes) (n : ℕ) (input rest : Input) (body : Bytes)
      → os.forks ≡ true
      → os.program p (post_env n) body ≡ ends out
      → Holds method (codes "POST")
      → Holds path p
      → w.input ≡ header hs input
      → Declares n hs
      → IsHeader fuel hs
      → length hs < fuel
      → forward_body n ch input ≡ (body, rest)
      → exec_cgi os fuel ch path method query w
        ≡ done (emit_all (program_events body (post_printed n ++ out)) (record w { input = rest }))
  unfolding exec_cgi answer_by_program child_output equal
  exec_cgi-forward_body path method query p out n input rest body forks runs hm hp e d lines enough
        f =
      rw
        (
          hm.splits,
          hp.splits,
          str_eq_lem (codes "POST") (codes "GET") hm.rest [] hm.is_text (omega arith),
          e,
          read_length_lem fuel fuel (pos 0) hs input (omega arith) lines enough,
          Declares-declared n hs d,
          send_status_lem (record w { input = input }),
          forks,
          post_is_post hm.rest,
          c_text_lem p hp.rest hp.is_text,
          f,
          child_env-post (codes "POST" ++ 0 ∷ hm.rest) query n
              (record { is_text = hm.is_text; rest = hm.rest; splits = refl }),
          runs,
        )
        (simp append_assoc)
