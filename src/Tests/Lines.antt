-- ===== src/Tests/Lines.antt =====
-- Runs of the request line and of the line reader, and their theorems at concrete inputs.
use face_perception.Common.{
  ◌≤◌, ◌<◌, ◌≡◌, refl, [], ◌∷◌, ◌++◌, codes, true, false, arith, inl, inr, equal, replicate,
}
use face_perception.Outcome.{done, fault, out_of_bounds, spins}
use face_perception.Http.Line.{byte, arriving, get_line}
use face_perception.Http.Line.Laws.{stored, get_line_lem}
use face_perception.Http.Line.Limits.{get_line_overflow, get_line_spins}
use face_perception.Http.Request.{Request, new_request, get_comm, get_path_method_query}
use face_perception.Http.Request.Laws.{get_comm_lem}
use face_perception.Http.Request.Parse.{request_line, IsRequest, Parsed}
use face_perception.Http.Request.Methods.{parse_get_query, parse_get, parse_other}
use face_perception.Tests.Requests.{query, get-IsRequest, get-IsRequest_query}

parse_get_query_run :
    (out : Request) × (get_path_method_query
        (request_line (codes "GET") (codes "/show?" ++ query) (codes "HTTP/1.1\n") ++ 0 ∷ [])
        new_request
      ≡ done out)
    × Parsed out true (codes "GET") (codes "/show") query (codes "HTTP/1.1\n") (codes "htdocs/show")
parse_get_query_run =
    parse_get_query (codes "/show") query (codes "HTTP/1.1\n") [] (omega arith) (omega arith)
      get-IsRequest_query (omega arith)

parse_get_run :
    (out : Request) × (get_path_method_query
        (request_line (codes "GET") (codes "/a/") (codes "HTTP/1.1\n") ++ 0 ∷ [])
        new_request
      ≡ done out)
    × Parsed out false
        (codes "GET")
        (codes "/a/")
        []
        (codes "HTTP/1.1\n")
        (codes "htdocs/a/index.html")
parse_get_run =
    parse_get (codes "/a/") (codes "HTTP/1.1\n") [] (omega arith) get-IsRequest (omega arith)

post-IsRequest : IsRequest (codes "POST") (codes "/show") (codes "HTTP/1.1\n")
post-IsRequest = record {
  method_ne = cc;
  url_ne = cc;
  treaty_ne = cc;
  method_word = omega arith;
  url_word = omega arith;
  treaty_word = omega arith;
  method_fits = omega arith;
  url_fits = omega arith;
  treaty_fits = omega arith;
}

parse_other_run :
    (out : Request) × (get_path_method_query
        (request_line (codes "POST") (codes "/show") (codes "HTTP/1.1\n") ++ 0 ∷ [])
        new_request
      ≡ done out)
    × Parsed out true
        (codes "POST")
        (codes "/show")
        (codes "/show")
        (codes "HTTP/1.1\n")
        (codes "htdocs/show")
unfolding equal
parse_other_run =
    parse_other (codes "POST") (codes "/show") (codes "HTTP/1.1\n") [] (cc) post-IsRequest
      (omega arith)

get_comm_lem_run :
    (5 ≤ 8
      → get_comm (codes "  /show x") (replicate 8 0) ≡ done (5, codes "/show" ++ replicate 3 0))
    × (8 < 5 → get_comm (codes "  /show x") (replicate 8 0) ≡ fault out_of_bounds)
get_comm_lem_run =
    get_comm_lem 2 b'/' (codes "show") b' ' (codes "x") (replicate 8 0) (omega arith) (inl refl)

get_line_lem_example :
    get_line 9 (replicate 16 0) 16 (arriving (codes "GET /") ++ byte b'\r' ∷ byte b'\n' ∷ [])
    ≡ done (6, codes "GET /\n" ++ replicate 10 0, [])
unfolding stored
get_line_lem_example =
    get_line_lem 9 (replicate 16 0) (codes "GET /") b'\r' b'\n' [] (omega arith) (inr (inr refl))
      (omega arith) (omega arith) (omega arith)

get_line_overflow_example :
    get_line 8 (replicate 4 0) 4 (arriving (codes "GET") ++ byte b'\r' ∷ []) ≡ fault out_of_bounds
get_line_overflow_example =
    get_line_overflow 8 b'G' (codes "ET") (replicate 4 0) (byte b'\r' ∷ []) (omega arith)
      (omega arith) (omega arith)

get_line_spins_example : get_line 1000 (replicate 16 0) 16 (arriving (codes "GET")) ≡ spins
get_line_spins_example =
    get_line_spins 1000 b'G' (codes "ET") (replicate 16 0) (omega arith) (omega arith)
