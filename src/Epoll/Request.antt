-- ===== src/Epoll/Request.antt =====
-- server/server.h: `get_comm` and `get_method_path_url`, which take the first line of a request
-- apart. The text of `get_comm` is the one in server/server_http.h.
pub mod Laws
use face_perception.Common.{ℕ, ◌+◌, Bool, true, false, not, ◌&&◌, Bytes, codes, if◌then◌else◌, drop}
use face_perception.Outcome.{Outcome, done, ◌>>=◌}
use face_perception.Memory.{zeros, literal, sprintf_s, str_eq, str_case_eq}
use face_perception.Http.Request.{cut_query, add_index}
use face_perception.Http.Request as HttpRequest

abbrev pub get_comm : Bytes → Bytes → Outcome (ℕ × Bytes)
get_comm = HttpRequest.get_comm

-- The size of every array.
abbrev pub array_size : ℕ
array_size = 128

-- The arrays and the flag of `accept_request`.
pub record Request : Type 0 where
  pub method : Bytes
  pub path : Bytes
  pub url : Bytes
  pub cgi : Bool

abbrev pub new_request : Request
new_request = record {
  method = zeros array_size;
  path = zeros array_size;
  url = zeros array_size;
  cgi = false;
}

-- The part behind the check of the method.
unfoldable pub make_path : Request → Outcome Request
make_path r = do
  post ← str_eq r.method (literal "POST")
  get ← str_eq r.method (literal "GET")
  let cgi = if post then true else r.cgi
  (cgi', url, cur) ← (if get then cut_query cgi r.url else done (cgi, r.url, 0))
  path ← sprintf_s r.path (codes "htdocs") url
  path' ← add_index path
  done (record { method = r.method; path = path'; url = url; cgi = cgi' })

-- For a method that is neither GET nor POST, whatever the case, the path stays as it is.
unfoldable pub get_method_path_url : Bytes → Request → Outcome Request
unfolding make_path
get_method_path_url buf r0 = do
  (n, method) ← get_comm buf r0.method
  (m, url) ← get_comm (drop (n + 1) buf) r0.url
  get ← str_case_eq method (literal "GET")
  post ← str_case_eq method (literal "POST")
  let r = record r0 { method = method; url = url }
  if not get && not post then done r else make_path r
