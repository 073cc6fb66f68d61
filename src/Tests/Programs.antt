-- ===== src/Tests/Programs.antt =====
-- Runs of the programs in cgi_bin/, and their theorems at concrete inputs.
use face_perception.Common.{◌≡◌, refl, Bytes, List, [], ◌∷◌, ◌++◌, codes, arith}
use face_perception.Common.Int.{pos}
use face_perception.Outcome.{done, fault, null_pointer}
use face_perception.Memory.{zeros, write, c_text, sprintf_s, str_eq}
use face_perception.Attendance.Query.Laws.{query_text}
use face_perception.Http.Cgi.{child_env, atoi, read_number, clamp, read_digits}
use face_perception.Programs.Show.{getenv, strip, show}
use face_perception.Programs.Show.Pairs.{lines}
use face_perception.Programs.Show.Laws.{page, show_get_lem, show_post_lem}
use face_perception.Programs.Show.Started.{show-child_env}

abbrev query : Bytes
query = query_text (codes "n") (codes "zhou") (codes "i") (codes "7")

abbrev get_env : List Bytes
get_env = codes "HOME=/" ∷ codes "REQUEST_STRING=GET" ∷ (codes "QUERY_STRING=" ++ query) ∷ []

show_get_lem_example : show get_env [] ≡ done (page (lines (codes "zhou") (codes "7")))
unfolding getenv strip
show_get_lem_example =
    show_get_lem get_env (codes "n") (codes "zhou") (codes "i") (codes "7") (omega arith)
      (omega arith) (omega arith) (omega arith) (omega arith) [] refl refl

abbrev post_env : List Bytes
post_env = codes "REQUEST_STRING=POST" ∷ codes "CONTENT_LENGTH=10" ∷ []

show_post_lem_run :
    show post_env (query ++ codes "more") ≡ done (page (lines (codes "zhou") (codes "7")))
unfolding getenv strip atoi read_number clamp read_digits
show_post_lem_run =
    show_post_lem post_env (codes "n") (codes "zhou") (codes "i") (codes "7") (omega arith)
      (omega arith) (omega arith) (omega arith) (omega arith) (codes "more") (codes "10") refl refl
      (omega arith) refl

abbrev set_env : List Bytes
set_env = codes "REQUEST_METHOD:GET" ∷ (codes "QUERY_STRING:" ++ query) ∷ []

show-child_env_example : show (codes "HOME=/" ∷ set_env) [] ≡ fault null_pointer
unfolding getenv strip child_env sprintf_s write c_text str_eq zeros
show-child_env_example =
    show-child_env (codes "GET" ++ 0 ∷ []) (query ++ 0 ∷ []) (pos 0) (codes "HOME=/" ∷ []) set_env
      (codes " GET  query env :QUERY_STRING:" ++ query ++ codes "\n") [] refl refl
