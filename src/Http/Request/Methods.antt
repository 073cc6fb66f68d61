-- ===== src/Http/Request/Methods.antt =====
-- Request lines by their method: GET with and without a query, POST, and any other.
use face_perception.Common.{
  set-append, ℕ, ◌+◌, ◌-◌, ◌<◌, ◌≡◌, ◌≢◌, refl, ◌⊎◌, inl, inr, Bool, true, false, Bytes, [], ◌∷◌,
  ◌++◌, append_assoc, arith, equal, All, length, length-append, drop-append, drop-append_add, codes,
  equal_ne,
}
use face_perception.Outcome.{done}
use face_perception.Memory.{zeros}
use face_perception.Http.Request.{
  Request, new_request, path_size, url_size, find_query, cut_query, get_path_method_query,
}
use face_perception.Http.Request.Laws.{IsWord, word-IsText, index_path}
use face_perception.Http.Request.Parse.{request_line, IsRequest, Parsed, parse_steps}

-- A resource with no query.
abbrev pub IsUrl : Bytes → Type 0
IsUrl = All (λ c. ((c ≢ 0) × (c ≢ b' ')) × (c ≢ b'?'))

pub url-IsWord : (u : Bytes) → IsUrl u → IsWord u
url-IsWord [] h = tt
url-IsWord (c ∷ u) h = (h.0.0, url-IsWord u h.1)

find_query_lem :
    (u : Bytes) (c : ℕ) (rest : Bytes)
    → IsUrl u
    → (c ≡ b'?') ⊎ (c ≡ 0)
    → find_query (u ++ c ∷ rest) ≡ done (length u)
unfolding find_query
find_query_lem [] c rest h stop = ground arith
find_query_lem (d ∷ u) c rest h stop = ground (arith, find_query_lem u c rest h.1 stop)

pub cut_query_lem :
    (cgi : Bool) (u rest : Bytes)
    → IsUrl u
    → cut_query cgi (u ++ b'?' ∷ rest) ≡ done (true, u ++ 0 ∷ rest, length u + 1)
unfolding cut_query
cut_query_lem cgi u rest h =
    rw (
      find_query_lem u b'?' rest h (inl refl),
      drop-append u (b'?' ∷ rest),
      set-append u b'?' 0 rest,
    )

pub cut_query_none :
    (cgi : Bool) (u rest : Bytes)
    → IsUrl u
    → cut_query cgi (u ++ 0 ∷ rest) ≡ done (cgi, u ++ 0 ∷ rest, length u)
unfolding cut_query
cut_query_none cgi u rest h = rw (find_query_lem u 0 rest h (inr refl), drop-append u (0 ∷ rest))

-- GET /path?query: the query is cut off the resource, and the request is one for a program.
pub parse_get_query :
    (u q v rest : Bytes)
    → IsUrl u
    → IsWord q
    → IsRequest (codes "GET") (u ++ b'?' ∷ q) v
    → length u + 16 < path_size
    → (out : Request) × (get_path_method_query
          (request_line (codes "GET") (u ++ b'?' ∷ q) v ++ 0 ∷ rest)
          new_request
        ≡ done out)
      × Parsed out true (codes "GET") u q v (index_path (codes "htdocs" ++ u))
unfolding equal
parse_get_query u q v rest hu hq req fits =
    let w = u ++ b'?' ∷ q in
    let r = zeros (url_size - length w - 1) in
    parse_steps (codes "GET") w v rest req u q (q ++ 0 ∷ r) r true (length u + 1)
      (rw (append_assoc u (b'?' ∷ q) (0 ∷ r)) (cut_query_lem false u (q ++ 0 ∷ r) hu))
      (drop-append_add u (0 ∷ (q ++ 0 ∷ r)) 1) (word-IsText u (url-IsWord u hu)) (word-IsText q hq)
      fits (omega (arith, length-append u (b'?' ∷ q), req.url_fits))

-- GET /path: the request is one for a file, and the query is empty.
pub parse_get :
    (u v rest : Bytes)
    → IsUrl u
    → IsRequest (codes "GET") u v
    → length u + 16 < path_size
    → (out : Request) × (get_path_method_query
          (request_line (codes "GET") u v ++ 0 ∷ rest)
          new_request
        ≡ done out)
      × Parsed out false (codes "GET") u [] v (index_path (codes "htdocs" ++ u))
unfolding equal
parse_get u v rest hu req fits =
    let r = zeros (url_size - length u - 1) in
    parse_steps (codes "GET") u v rest req u [] r r false (length u) (cut_query_none false u r hu)
      (drop-append u (0 ∷ r)) (word-IsText u (url-IsWord u hu)) tt fits (omega arith)

-- Any other method: only POST makes it a request for a program, and the query is the resource.
pub parse_other :
    (m w v rest : Bytes)
    → m ≢ codes "GET"
    → IsRequest m w v
    → length w + 16 < path_size
    → (out : Request) × (get_path_method_query (request_line m w v ++ 0 ∷ rest) new_request
        ≡ done out)
      × Parsed out (equal m (codes "POST")) m w w v (index_path (codes "htdocs" ++ w))
parse_other m w v rest other req fits =
    let r = zeros (url_size - length w - 1) in
    parse_steps m w v rest req w w r r (equal m (codes "POST")) 0
      (rw (equal_ne m (codes "GET") other) (ground arith)) refl (word-IsText w req.url_word)
      (word-IsText w req.url_word) fits req.url_fits
