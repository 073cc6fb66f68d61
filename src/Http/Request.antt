-- ===== src/Http/Request.antt =====
-- server/server_http.h: `get_comm`, `get_method`, `get_url`, `get_treaty` and
-- `get_path_method_query`, which take the first line of a request apart.
pub mod Laws
pub mod Parse
pub mod Methods
use face_perception.Common.{
  ℕ, zero, suc, ◌+◌, ◌-◌, Bool, true, false, not, ◌&&◌, ◌||◌, Bytes, List, [], ◌∷◌, codes, ◌==◌,
  if◌then◌else◌, drop, set,
}
use face_perception.Outcome.{Outcome, done, fault, out_of_bounds, ◌>>=◌, ◌>>◌}
use face_perception.Memory.{
  zeros, literal, deref, put, strlen, strcpy, strcat, sprintf_s, str_eq, str_case_eq,
}

-- `while (buf[j] == ' ') j++;`, and the text from there on.
unfoldable pub skip_spaces : Bytes → Outcome Bytes
skip_spaces [] = fault out_of_bounds
skip_spaces (c ∷ buf) = let rest = skip_spaces buf in if c == b' ' then rest else done (c ∷ buf)

-- The second loop, which copies a word to `str` from `i` on, with no look at the size of `str`.
unfoldable pub copy_word : Bytes → ℕ → Bytes → Outcome (ℕ × Bytes)
copy_word str i [] = fault out_of_bounds
copy_word str i (c ∷ buf) =
    let rest = (put str i c >>= λ str'. copy_word str' (i + 1) buf) in
    if c == b' ' || c == 0 then done (i, str) else rest

-- The length of the word, and `str`. The spaces in front of the word are not counted.
unfoldable pub get_comm : Bytes → Bytes → Outcome (ℕ × Bytes)
get_comm buf str = do word ← skip_spaces buf; copy_word str 0 word

abbrev pub get_method : Bytes → Bytes → Outcome (ℕ × Bytes)
get_method = get_comm

abbrev pub get_url : Bytes → Bytes → Outcome (ℕ × Bytes)
get_url = get_comm

abbrev pub get_treaty : Bytes → Bytes → Outcome (ℕ × Bytes)
get_treaty = get_comm

-- The arrays of `Accept`, and its flag `cgi`.
pub record Request : Type 0 where
  pub cgi : Bool
  pub path : Bytes
  pub method : Bytes
  pub url : Bytes
  pub query : Bytes
  pub treaty : Bytes

abbrev pub method_size : ℕ
method_size = 255

abbrev pub url_size : ℕ
url_size = 512

abbrev pub path_size : ℕ
path_size = 512

abbrev pub query_size : ℕ
query_size = 512

abbrev pub treaty_size : ℕ
treaty_size = 512

-- What `Accept` hands over.
abbrev pub new_request : Request
new_request = record {
  cgi = false;
  path = zeros path_size;
  method = zeros method_size;
  url = zeros url_size;
  query = zeros query_size;
  treaty = zeros treaty_size;
}

-- The comparison of the method with GET and POST whatever the case, whose result is not used.
unfoldable pub check_method : Bytes → Outcome (Unit {0})
check_method method = do
  get ← str_case_eq method (literal "GET")
  if get then done tt else (str_case_eq method (literal "POST") >>= λ _. done tt)

-- `while (*cur != '?' && *cur != '\0') cur++;`, as the offset of `cur` in `url`.
unfoldable pub find_query : Bytes → Outcome ℕ
find_query [] = fault out_of_bounds
find_query (c ∷ url) =
    let rest = find_query url in
    if c == b'?' || c == 0 then done 0 else (rest >>= λ n. done (suc n))

-- The block of a GET request: a query is cut off the URL. The result is `cgi`, `url` and the
-- offset of `cur`.
unfoldable pub cut_query : Bool → Bytes → Outcome (Bool × Bytes × ℕ)
unfolding find_query
cut_query cgi url = do
  n ← find_query url
  c ← deref (drop n url)
  if c == b'?' then done (true, set url n 0, n + 1) else done (cgi, url, n)

-- `path[strlen(path) - 1] == '/'`
unfoldable pub add_index : Bytes → Outcome Bytes
add_index path = do
  len ← strlen path
  last ← deref (drop (len - 1) path)
  if last == b'/' then strcat path (literal "index.html") else done path

-- `get_path_method_query(buf, …)`. The lines for the console are left out.
unfoldable pub get_path_method_query : Bytes → Request → Outcome Request
unfolding check_method cut_query add_index
get_path_method_query buf r = do
  (n, method) ← get_method buf r.method
  (m, url) ← get_url (drop (n + 1) buf) r.url
  (k, treaty) ← get_treaty (drop (n + m + 1) buf) r.treaty
  check_method method
  post ← str_eq method (literal "POST")
  let cgi = if post then true else r.cgi
  get ← str_eq method (literal "GET")
  (cgi', url', cur) ← (if get then cut_query cgi url else done (cgi, url, 0))
  query ← strcpy r.query (drop cur url')
  path ← sprintf_s r.path (codes "htdocs") url'
  path' ← add_index path
  done (record {
    cgi = cgi';
    path = path';
    method = method;
    url = url';
    query = query;
    treaty = treaty;
  })
