-- ===== src/Epoll/Request/Laws.antt =====
-- What `get_method_path_url` of server/server.h makes of the first line of a request.
use face_perception.Common.{
  ℕ, ◌+◌, ◌-◌, ◌<◌, ◌≡◌, ◌≢◌, refl, inl, Bool, true, false, Bytes, [], ◌∷◌, ◌++◌, arith, map, equal,
  length, codes, not, ◌&&◌, if◌then◌else◌, append_assoc,
}
use face_perception.Outcome.{Outcome, done}
use face_perception.Memory.{zeros, to_lower}
use face_perception.Memory.Laws.{Holds, IsText, str_eq_lem, str_case_eq_lem}
use face_perception.Http.Request.{cut_query}
use face_perception.Http.Request.Laws.{index_path, IsWord, word-IsText}
use face_perception.Http.Request.Parse.{
  path_steps, request_line, get_word, behind_method, flat_line,
}
use face_perception.Http.Request.Methods.{IsUrl, url-IsWord, cut_query_lem, cut_query_none}
use face_perception.Epoll.Request.{array_size, Request, new_request, make_path, get_method_path_url}

-- Two words that fit their arrays.
pub record IsRequest (m w : Bytes) : Type 0 where
  pub method_ne : m ≢ []
  pub url_ne : w ≢ []
  pub method_word : IsWord m
  pub url_word : IsWord w
  pub method_fits : length m < array_size
  pub url_fits : length w < array_size

-- The request once its two words are read.
abbrev pub read_request : Bytes → Bytes → Request
read_request m w = record new_request {
  method = m ++ 0 ∷ zeros (array_size - length m - 1);
  url = w ++ 0 ∷ zeros (array_size - length w - 1);
}

-- The block for the method GET.
abbrev pub cut_at : Request → Bytes → Outcome (Bool × Bytes × ℕ)
cut_at r m =
    let cgi = (if equal m (codes "POST") then true else r.cgi) in
    if equal m (codes "GET") then cut_query cgi r.url else done (cgi, r.url, 0)

-- The method compared without regard to case.
abbrev pub is_method : Bytes → Bytes → Bool
is_method m s = equal (map to_lower m) (map to_lower s)

module _ (m w v rest : Bytes) (req : IsRequest m w) where
  parse_words : get_method_path_url (request_line m w v ++ 0 ∷ rest) new_request ≡ (
      if not (is_method m (codes "GET")) && not (is_method m (codes "POST"))
      then done (read_request m w)
      else make_path (read_request m w))
  unfolding get_method_path_url
  parse_words = rw (
    flat_line m w v rest,
    get_word 0 array_size m b' ' (w ++ b' ' ∷ (v ++ 0 ∷ rest)) req.method_ne req.method_word
        (inl refl) req.method_fits,
    behind_method m (w ++ b' ' ∷ (v ++ 0 ∷ rest)),
    get_word 0 array_size w b' ' (v ++ 0 ∷ rest) req.url_ne req.url_word (inl refl) req.url_fits,
    str_case_eq_lem m (codes "GET") (zeros (array_size - length m - 1)) []
        (word-IsText m req.method_word) (omega arith),
    str_case_eq_lem m (codes "POST") (zeros (array_size - length m - 1)) []
        (word-IsText m req.method_word) (omega arith),
  )

  -- A method that is neither GET nor POST, whatever the case, leaves the path empty.
  pub parse_other :
      is_method m (codes "GET") ≡ false
      → is_method m (codes "POST") ≡ false
      → get_method_path_url (request_line m w v ++ 0 ∷ rest) new_request ≡ done (read_request m w)
  parse_other g p = rw (parse_words, g, p)

-- The request that the second half makes of the words, when `cut` gives `cgi` and the text `u` of
-- the URL.
make_path_lem :
    (r : Request) (m u tail : Bytes) (cgi : Bool) (cur : ℕ)
    → Holds r.method m
    → r.path ≡ zeros array_size
    → cut_at r m ≡ done (cgi, u ++ 0 ∷ tail, cur)
    → IsText u
    → length u + 16 < array_size
    → (s : Bytes) × (make_path r
        ≡ done (record r {
          path = index_path (codes "htdocs" ++ u) ++ 0 ∷ s;
          url = u ++ 0 ∷ tail;
          cgi = cgi;
        }))
      × (length (index_path (codes "htdocs" ++ u) ++ 0 ∷ s) ≡ array_size)
unfolding make_path
make_path_lem r m u tail cgi cur h p c t fits =
    let (z, s, printed, indexed, len) = path_steps array_size u tail t fits in
    (
      s,
      rw (
        h.splits,
        str_eq_lem m (codes "POST") h.rest [] h.is_text (omega arith),
        str_eq_lem m (codes "GET") h.rest [] h.is_text (omega arith),
        c,
        p,
        printed,
        indexed,
      ),
      len,
    )

-- GET with a query: the query is cut off and lost, and the request is one for a program.
pub parse_get_query :
    (u q v rest : Bytes)
    → IsUrl u
    → IsWord q
    → IsRequest (codes "GET") (u ++ b'?' ∷ q)
    → length u + 16 < array_size
    → (s : Bytes) × (get_method_path_url
          (request_line (codes "GET") (u ++ b'?' ∷ q) v ++ 0 ∷ rest)
          new_request
        ≡ done (record {
          method = codes "GET" ++ 0 ∷ zeros (array_size - 4);
          path = index_path (codes "htdocs" ++ u) ++ 0 ∷ s;
          url = u ++ 0 ∷ (q ++ 0 ∷ zeros (array_size - length (u ++ b'?' ∷ q) - 1));
          cgi = true;
        }))
unfolding equal to_lower
parse_get_query u q v rest hu hq req fits =
    let w = u ++ b'?' ∷ q in
    let z = zeros (array_size - length w - 1) in
    let (s, e, len) =
      make_path_lem (read_request (codes "GET") w) (codes "GET") u (q ++ 0 ∷ z) true (length u + 1)
        (record { is_text = omega arith; rest = zeros (array_size - 4); splits = refl }) refl
        (rw (append_assoc u (b'?' ∷ q) (0 ∷ z)) (cut_query_lem false u (q ++ 0 ∷ z) hu))
        (word-IsText u (url-IsWord u hu)) fits in
    (s, rw (parse_words (codes "GET") w v rest req) e)

-- GET without a query: the path is that of a file.
pub parse_get :
    (u v rest : Bytes)
    → IsUrl u
    → IsRequest (codes "GET") u
    → length u + 16 < array_size
    → (s : Bytes) × (get_method_path_url (request_line (codes "GET") u v ++ 0 ∷ rest) new_request
        ≡ done (record {
          method = codes "GET" ++ 0 ∷ zeros (array_size - 4);
          path = index_path (codes "htdocs" ++ u) ++ 0 ∷ s;
          url = u ++ 0 ∷ zeros (array_size - length u - 1);
          cgi = false;
        }))
      × (length (index_path (codes "htdocs" ++ u) ++ 0 ∷ s) ≡ array_size)
unfolding equal to_lower
parse_get u v rest hu req fits =
    let z = zeros (array_size - length u - 1) in
    let (s, e, len) =
      make_path_lem (read_request (codes "GET") u) (codes "GET") u z false (length u)
        (record { is_text = omega arith; rest = zeros (array_size - 4); splits = refl }) refl
        (cut_query_none false u z hu) (word-IsText u (url-IsWord u hu)) fits in
    (s, rw (parse_words (codes "GET") u v rest req) e, len)
