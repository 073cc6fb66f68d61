-- ===== src/Http/Cgi/Child.antt =====
-- server/server_http.h: what the child of `exec_cgi` sets and prints.
use face_perception.Common.{
  ℕ, ◌+◌, ◌≤◌, ◌≡◌, Bytes, List, [], ◌∷◌, ◌++◌, append_assoc, All-append, arith, codes, length,
  drop, equal, ◌≢◌,
}
use face_perception.Common.Int.{ℤ, pos}
use face_perception.Outcome.{done}
use face_perception.Memory.{zeros, c_text}
use face_perception.Memory.Laws.{
  IsText, Holds, length-zeros, c_text_lem, str_eq_lem, sprintf_s_lem, write_terminated,
}
use face_perception.Attendance.Report.{decimal}
use face_perception.Attendance.Report.Laws.{length-decimal, decimal-IsField, field-IsText}
use face_perception.Http.Request.{method_size, query_size}
use face_perception.Http.Cgi.{child_env}

-- What the child sets for a GET request with the query `q`, and for a POST request of `n` bytes.
abbrev pub get_env : Bytes → List Bytes
get_env q = codes "REQUEST_METHOD:GET" ∷ (codes "QUERY_STRING:" ++ q) ∷ []

abbrev pub post_env : ℕ → List Bytes
post_env n = codes "REQUEST_METHOD:POST" ∷ (codes "CONTENT-LENGTH:" ++ decimal (pos n)) ∷ []

-- What it prints.
abbrev pub get_printed : Bytes → Bytes
get_printed q = codes " GET  query env :QUERY_STRING:" ++ (q ++ codes "\n")

abbrev pub post_printed : ℕ → Bytes
post_printed n = codes " POST  content len env :CONTENT-LENGTH:" ++ (decimal (pos n) ++ codes "\n")

decimal-IsText : (z : ℤ) → IsText (decimal z)
decimal-IsText z = field-IsText (decimal z) (decimal-IsField z)

c_text-prefixed : (p t r : Bytes) → IsText p → IsText t → c_text (p ++ (t ++ 0 ∷ r)) ≡ done (p ++ t)
c_text-prefixed p t r h k =
    rw (← append_assoc p t (0 ∷ r)) (c_text_lem (p ++ t) r (All-append (λ c. c ≢ 0) p t h k))

pub child_env-get :
    (method query q : Bytes) (n : ℕ)
    → Holds method (codes "GET")
    → Holds query q
    → length q + 14 ≤ query_size
    → child_env method query (pos n) ≡ done (get_env q, get_printed q)
unfolding child_env equal
child_env-get method query q n hm hq fits = rw (
  hm.splits,
  hq.splits,
  sprintf_s_lem (zeros method_size) (codes "REQUEST_METHOD:") (codes "GET") hm.rest hm.is_text
      (omega (arith, length-zeros method_size)),
  c_text-prefixed (codes "REQUEST_METHOD:") (codes "GET") (drop 19 (zeros method_size))
      (omega arith) hm.is_text,
  str_eq_lem (codes "GET") (codes "GET") hm.rest [] hm.is_text (omega arith),
  sprintf_s_lem (zeros query_size) (codes "QUERY_STRING:") q hq.rest hq.is_text
      (omega (arith, length-zeros query_size)),
  c_text-prefixed (codes "QUERY_STRING:") q (drop _ (zeros query_size)) (omega arith) hq.is_text,
)

pub child_env-post :
    (method query : Bytes) (n : ℕ)
    → Holds method (codes "POST")
    → child_env method query (pos n) ≡ done (post_env n, post_printed n)
unfolding child_env equal
child_env-post method query n hm =
    let t : Bytes = codes "CONTENT-LENGTH:" ++ decimal (pos n) in
    let text : IsText t =
      All-append (λ c. c ≢ 0) (codes "CONTENT-LENGTH:") (decimal (pos n)) (omega arith)
        (decimal-IsText (pos n)) in
    rw (
      hm.splits,
      sprintf_s_lem (zeros method_size) (codes "REQUEST_METHOD:") (codes "POST") hm.rest hm.is_text
          (omega (arith, length-zeros method_size)),
      c_text-prefixed (codes "REQUEST_METHOD:") (codes "POST") (drop 20 (zeros method_size))
          (omega arith) hm.is_text,
      str_eq_lem (codes "POST") (codes "GET") hm.rest [] hm.is_text (omega arith),
      write_terminated (zeros method_size) t
          (omega (arith, length-zeros method_size, length-decimal (pos n))),
      c_text_lem t _ text,
    )
