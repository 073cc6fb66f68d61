-- ===== src/Programs/Show/Laws.antt =====
-- What cgi_bin/show.cpp writes for a query of two pairs.
use face_perception.Common.{
  ℕ, suc, ◌+◌, ◌<◌, ◌≡◌, refl, Bytes, some, List, [], ◌∷◌, ◌++◌, append_assoc, arith, All, length,
  drop, length-append, ◌-◌, ◌≤◌, codes,
}
use face_perception.Common.Int.{pos}
use face_perception.Outcome.{done}
use face_perception.Memory.{zeros, str_case_eq}
use face_perception.Memory.Laws.{
  IsText, c_text_lem, strcpy_lem, length-zeros, put-append, drop-zeros_lt,
}
use face_perception.Attendance.Query.Laws.{query_text}
use face_perception.Http.Cgi.{atoi}
use face_perception.Programs.Show.{page_size, recv_str, getenv, read_body, show_request, show}
use face_perception.Programs.Show.Pairs.{IsPairByte, lines, query-IsText, recv_str_lem}

-- `main` for a GET request, up to the page's head and tail.
show_request_get :
    (env : List Bytes) (stdin q out : Bytes)
    → getenv env (codes "REQUEST_STRING") ≡ some (codes "GET")
    → getenv env (codes "QUERY_STRING") ≡ some q
    → IsText q
    → length q < page_size
    → ((rest : Bytes) → recv_str (q ++ 0 ∷ rest) ≡ done out)
    → show_request env stdin ≡ done out
unfolding show_request str_case_eq
show_request_get env stdin q out m e t fits r = rw (
  m,
  strcpy_lem (zeros page_size) (codes "GET") [] (omega arith)
      (omega (arith, length-zeros page_size)),
  e,
  strcpy_lem (zeros page_size) q [] t (omega (arith, length-zeros page_size)),
  r (drop (suc (length q)) (zeros page_size)),
)

-- `data_str` while the bytes of `body` arrive behind `w`.
read_body_lem :
    (body w free more : Bytes) (i : ℕ)
    → i ≡ length w
    → length body ≤ length free
    → read_body (length body) i (w ++ free) (body ++ more)
      ≡ done (i + length body, w ++ (body ++ drop (length body) free))
unfolding read_body
read_body_lem [] w free more i e fits = let z : i + 0 ≡ i = omega arith in rw z
read_body_lem (c ∷ body) w [] more i e fits = absurd (omega arith)
read_body_lem (c ∷ body) w (x ∷ free) more i e fits =
    let z : i + suc (length body) ≡ i + 1 + length body = omega arith in
    let rest =
      read_body_lem body (w ++ c ∷ []) free more (i + 1) (omega (arith, length-append w (c ∷ [])))
        (omega arith) in
    rw (e, put-append w x c free, ← e, z)
      (rw (append_assoc w (c ∷ []) free, append_assoc w (c ∷ []) (body ++ drop (length body) free))
        at rest)

show_request_post :
    (env : List Bytes) (q more l out : Bytes)
    → getenv env (codes "REQUEST_STRING") ≡ some (codes "POST")
    → getenv env (codes "CONTENT_LENGTH") ≡ some l
    → IsText l
    → atoi l ≡ pos (length q)
    → length q < page_size
    → ((rest : Bytes) → recv_str (q ++ 0 ∷ rest) ≡ done out)
    → show_request env (q ++ more) ≡ done out
unfolding show_request str_case_eq
show_request_post env q more l out m e t n fits r =
    let z : 0 + length q ≡ length q = omega arith in
    rw (
      m,
      strcpy_lem (zeros page_size) (codes "POST") [] (omega arith)
          (omega (arith, length-zeros page_size)),
      e,
      c_text_lem l [] t,
      n,
      read_body_lem q [] (zeros page_size) more 0 refl (omega (arith, length-zeros page_size)),
      z,
      drop-zeros_lt (length q) page_size fits,
      put-append q 0 0 (zeros (page_size - length q - 1)),
      r (zeros (page_size - length q - 1)),
    )

-- The page that the program writes.
abbrev pub page : Bytes → Bytes
page body =
    codes "<html>\n<head> come on show world </head>\n<body>\n"
    ++ (body ++ codes "</body>\n</html>\n")

module _ (env : List Bytes) (key name key' id : Bytes) (h : All IsPairByte key)
    (k : All IsPairByte name) (l : All IsPairByte key') (t : IsText id)
    (fits : length (query_text key name key' id) < page_size) where
  -- For the method GET in REQUEST_STRING and a query of two pairs in QUERY_STRING, the page shows
  -- the values of the first and the second pair. The query is shorter than 1024 bytes, and no key
  -- and no name holds an `=` or an `&`.
  pub show_get_lem :
      (stdin : Bytes)
      → getenv env (codes "REQUEST_STRING") ≡ some (codes "GET")
      → getenv env (codes "QUERY_STRING") ≡ some (query_text key name key' id)
      → show env stdin ≡ done (page (lines name id))
  unfolding show
  show_get_lem stdin m q = rw (
      show_request_get env stdin (query_text key name key' id) (lines name id) m q
        (query-IsText key name key' id h k l t) fits
        (λ rest. recv_str_lem key name key' id rest h k l t))

  -- For the method POST and a body of CONTENT_LENGTH bytes, the page shows the values of the body's
  -- two pairs, whatever follows the body in the input.
  pub show_post_lem :
      (more len : Bytes)
      → getenv env (codes "REQUEST_STRING") ≡ some (codes "POST")
      → getenv env (codes "CONTENT_LENGTH") ≡ some len
      → IsText len
      → atoi len ≡ pos (length (query_text key name key' id))
      → show env (query_text key name key' id ++ more) ≡ done (page (lines name id))
  unfolding show
  show_post_lem more len m q lt n = rw (
      show_request_post env (query_text key name key' id) more len (lines name id) m q lt n fits
        (λ rest. recv_str_lem key name key' id rest h k l t))
