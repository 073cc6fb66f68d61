-- ===== src/Http/Request/Parse.antt =====
-- What `get_path_method_query` makes of the first line of a request.
use face_perception.Common.{
  ℕ, suc, ◌+◌, ◌-◌, ◌<◌, ◌≡◌, ◌≢◌, refl, inl, inr, Bool, true, false, Bytes, [], ◌∷◌, ◌++◌,
  append_assoc, arith, ◌==◌, if◌then◌else◌, equal, length, length-drop, drop, replicate,
  length-append, drop-append_add, codes, All-append, Bool-cases,
}
use face_perception.Outcome.{Outcome, done}
use face_perception.Memory.{zeros, sprintf_s}
use face_perception.Memory.Laws.{
  IsText, Holds, length-zeros, drop-zeros_lt, strcpy_lem, sprintf_s_lem, str_eq_lem,
  str_case_eq_done,
}
use face_perception.Http.Line.Laws.{last_byte}
use face_perception.Http.Request.{
  Request, new_request, method_size, url_size, path_size, query_size, treaty_size, get_comm,
  check_method, cut_query, add_index, get_path_method_query,
}
use face_perception.Http.Request.Laws.{
  IsWord, IsGap, word-IsText, get_comm_lem, index_path, add_index_lem,
}

-- A word copied to a zeroed array that has room for its terminator too.
pub get_word :
    (k n : ℕ) (w : Bytes) (gap : ℕ) (rest : Bytes)
    → w ≢ []
    → IsWord w
    → IsGap gap
    → length w < n
    → get_comm (replicate k b' ' ++ (w ++ gap ∷ rest)) (zeros n)
      ≡ done (length w, w ++ 0 ∷ zeros (n - length w - 1))
get_word k n [] gap rest ne h stop fits = absurd (ne refl)
get_word k n (c ∷ w) gap rest ne h stop fits =
    rw
      (
        ← append_assoc (replicate k b' ') (c ∷ w) (gap ∷ rest),
        ← drop-zeros_lt (length (c ∷ w)) n fits,
      )
      ((get_comm_lem k c w gap rest (zeros n) h stop).0 (omega (arith, length-zeros n)))

check_method_lem : (m r : Bytes) → IsText m → check_method (m ++ 0 ∷ r) ≡ done tt
unfolding check_method
check_method_lem m r h =
    let (g, e) = str_case_eq_done m (codes "GET") r [] h (omega arith) in
    let (p, e') = str_case_eq_done m (codes "POST") r [] h (omega arith) in
    rw e (ground (arith, e'))

-- The text of a request line: method, resource and protocol with one space between them, and the
-- newline that `get_line` has put behind the protocol.
abbrev pub request_line : Bytes → Bytes → Bytes → Bytes
request_line m w v = m ++ b' ' ∷ (w ++ b' ' ∷ v)

pub behind_method : (m rest : Bytes) → drop (length m + 1) (m ++ b' ' ∷ rest) ≡ rest
behind_method m rest = drop-append_add m (b' ' ∷ rest) 1

behind_url :
    (m w v rest : Bytes)
    → drop (length m + length w + 1) (m ++ b' ' ∷ (w ++ b' ' ∷ (v ++ rest))) ≡ b' ' ∷ (v ++ rest)
behind_url m w v rest =
    let n : length m + length w + 1 ≡ length m + suc (length w + 0) = omega arith in
    rw (n, drop-append_add m (b' ' ∷ (w ++ b' ' ∷ (v ++ rest))) (suc (length w + 0)))
      (drop-append_add w (b' ' ∷ (v ++ rest)) 0)

-- The texts of the arrays afterwards. The path keeps its array of `path_size` bytes.
pub record Parsed (r : Request) (cgi : Bool) (method url query treaty path : Bytes) : Type 0 where
  pub cgi_is : r.cgi ≡ cgi
  pub method_is : Holds r.method method
  pub url_is : Holds r.url url
  pub query_is : Holds r.query query
  pub treaty_is : Holds r.treaty treaty
  pub path_is : Holds r.path path
  pub path_len : length r.path ≡ path_size

pub flat_line :
    (m w v rest : Bytes)
    → request_line m w v ++ 0 ∷ rest ≡ m ++ b' ' ∷ (w ++ b' ' ∷ (v ++ 0 ∷ rest))
flat_line m w v rest = simp append_assoc

-- The block for the method GET, as `get_path_method_query` calls it.
abbrev pub cut : Bytes → Bytes → Outcome (Bool × Bytes × ℕ)
cut m url =
    let cgi = (if equal m (codes "POST") then true else false) in
    if equal m (codes "GET") then cut_query cgi url else done (cgi, url, 0)

-- The method, the resource and the protocol are words that fit their arrays.
pub record IsRequest (m w v : Bytes) : Type 0 where
  pub method_ne : m ≢ []
  pub url_ne : w ≢ []
  pub treaty_ne : v ≢ []
  pub method_word : IsWord m
  pub url_word : IsWord w
  pub treaty_word : IsWord v
  pub method_fits : length m < method_size
  pub url_fits : length w < url_size
  pub treaty_fits : length v < treaty_size

abbrev pub url_rest : Bytes → Bytes
url_rest w = zeros (url_size - length w - 1)

-- The second half, once the query is cut off: `u` is left of the URL, and `q` is the query.
pub path_steps :
    (size : ℕ) (u r : Bytes)
    → IsText u
    → length u + 16 < size
    → (p : Bytes) × (s : Bytes) × (sprintf_s (zeros size) (codes "htdocs") (u ++ 0 ∷ r) ≡ done p)
      × (add_index p ≡ done (index_path (codes "htdocs" ++ u) ++ 0 ∷ s))
      × (length (index_path (codes "htdocs" ++ u) ++ 0 ∷ s) ≡ size)
path_steps size u r h fits =
    let n = 6 + length u in
    let room : length (drop (suc n) (zeros size)) ≡ size - suc n =
      omega (arith, length-drop (suc n) (zeros size), length-zeros size) in
    let (s, e, l) =
      add_index_lem b'h' (codes "tdocs" ++ u) (drop (suc n) (zeros size))
        (omega arith, (omega arith, (omega arith, (omega arith, (omega arith, (omega arith, h))))))
        (omega arith) in
    (
      _,
      s,
      sprintf_s_lem (zeros size) (codes "htdocs") u r h (omega (arith, length-zeros size)),
      e,
      omega (arith, room, l, length-append (index_path (codes "htdocs" ++ u)) (0 ∷ s)),
    )

pub index_path-IsText : (t : Bytes) → IsText t → IsText (index_path t)
index_path-IsText t h = elim (Bool-cases (last_byte 0 t == b'/')) [
  | inl slash ↦ rw slash (All-append (λ c. c ≢ 0) t (codes "index.html") h (omega arith))
  | inr other ↦ rw other h
]

module _ (m w v rest : Bytes) (req : IsRequest m w v) where
  pub parse_steps :
      (u q r s : Bytes) (cgi : Bool) (cur : ℕ)
      → cut m (w ++ 0 ∷ url_rest w) ≡ done (cgi, u ++ 0 ∷ r, cur)
      → drop cur (u ++ 0 ∷ r) ≡ q ++ 0 ∷ s
      → IsText u
      → IsText q
      → length u + 16 < path_size
      → length q < query_size
      → (out : Request) × (get_path_method_query (request_line m w v ++ 0 ∷ rest) new_request
          ≡ done out)
        × Parsed out cgi m u q v (index_path (codes "htdocs" ++ u))
  unfolding get_path_method_query
  parse_steps u q r s cgi cur c d hu hq fits room =
      let (p, z, printed, indexed, len) = path_steps path_size u r hu fits in
      let hm = word-IsText m req.method_word in
      let hv = word-IsText v req.treaty_word in
      let mr = zeros (method_size - length m - 1) in
      let vr = zeros (treaty_size - length v - 1) in
      let qr = drop (suc (length q)) (zeros query_size) in
      (
        record {
          cgi = cgi;
          path = index_path (codes "htdocs" ++ u) ++ 0 ∷ z;
          method = m ++ 0 ∷ mr;
          url = u ++ 0 ∷ r;
          query = q ++ 0 ∷ qr;
          treaty = v ++ 0 ∷ vr;
        },
        rw (
          flat_line m w v rest,
          get_word 0 method_size m b' ' (w ++ b' ' ∷ (v ++ 0 ∷ rest)) req.method_ne req.method_word
              (inl refl) req.method_fits,
          behind_method m (w ++ b' ' ∷ (v ++ 0 ∷ rest)),
          get_word 0 url_size w b' ' (v ++ 0 ∷ rest) req.url_ne req.url_word (inl refl)
              req.url_fits,
          behind_url m w v (0 ∷ rest),
          get_word 1 treaty_size v 0 rest req.treaty_ne req.treaty_word (inr refl) req.treaty_fits,
          check_method_lem m mr hm,
          str_eq_lem m (codes "POST") mr [] hm (omega arith),
          str_eq_lem m (codes "GET") mr [] hm (omega arith),
          c,
          d,
          strcpy_lem (zeros query_size) q s hq (omega (arith, length-zeros query_size)),
          printed,
          indexed,
        ),
        record {
          cgi_is = refl;
          method_is = record { is_text = hm; rest = mr; splits = refl };
          url_is = record { is_text = hu; rest = r; splits = refl };
          query_is = record { is_text = hq; rest = qr; splits = refl };
          treaty_is = record { is_text = hv; rest = vr; splits = refl };
          path_is = record {
            is_text =
                index_path-IsText (codes "htdocs" ++ u)
                  (All-append (λ x. x ≢ 0) (codes "htdocs") u (omega arith) hu);
            rest = z;
            splits = refl;
          };
          path_len = len;
        },
      )
