-- ===== src/Epoll/Connection/Laws.antt =====
-- What a thread of the server on epoll does with a request: a file is sent, and any other request is
-- closed without an answer.
use face_perception.Common.{
  ℕ, ◌+◌, ◌≤◌, ◌<◌, ◌≡◌, refl, false, Bytes, none, List, [], ◌∷◌, ◌++◌, arith, codes, All,
  All-append, ◌≢◌, length-append, length, drop,
}
use face_perception.Outcome.{done, ◌>>=◌}
use face_perception.Memory.{zeros, c_text}
use face_perception.Memory.Laws.{length-zeros}
use face_perception.Http.Line.{Input, byte, arriving}
use face_perception.Http.Line.Laws.{IsPlain}
use face_perception.Http.Request.Laws.{IsWord, word-IsText, index_path}
use face_perception.Http.Request.Parse.{request_line, index_path-IsText}
use face_perception.Http.Request.Methods.{IsUrl, url-IsWord}
use face_perception.Http.Accept.Laws.{stored_line, length-index_path}
use face_perception.Http.Files.Laws.{header}
use face_perception.Epoll.Connection.Files.{IsHeader, file_answer, exec_get-file_answer}
use face_perception.Http.World.{Os, closed}
use face_perception.Epoll.Line.Laws.{get_line_lem}
use face_perception.Epoll.Request.{array_size, Request, new_request, get_method_path_url}
use face_perception.Epoll.Request.Laws.{
  IsRequest, read_request, is_method, parse_other, parse_get_query, parse_get,
}
use face_perception.Epoll.Connection.{
  Connection, emit, exec_get, exec_get_stat, answer, accept_request,
}

-- The first line fits the buffer and the fuel is enough for it.
pub record IsLine (fuel : ℕ) (m w v : Bytes) : Type 0 where
  pub words : IsRequest m w
  pub plain : All IsPlain (request_line m w v)
  pub line_fits : length (request_line m w v) + 2 ≤ array_size
  pub line_fuel : length (request_line m w v) < fuel

abbrev pub line_input : Bytes → Input → Input
line_input l rest = arriving l ++ byte b'\r' ∷ byte b'\n' ∷ rest

empty_path : c_text (zeros array_size) ≡ done []
unfolding zeros c_text
empty_path = refl

module _ (os : Os) (fuel : ℕ) where
  accept_request-parsed :
      (m w v : Bytes) (rest : Input) (k : Connection) (r : Request)
      → IsLine fuel m w v
      → k.input ≡ line_input (request_line m w v) rest
      → get_method_path_url
          (request_line m w (v ++ b'\n' ∷ [])
            ++ 0 ∷ drop (length (request_line m w v) + 2) (zeros array_size))
          new_request
        ≡ done r
      → accept_request os fuel k ≡ answer os fuel r (record k { input = rest })
  unfolding accept_request
  accept_request-parsed m w v rest k r h e parsed =
      let l = request_line m w v in
      rw
        (
          e,
          get_line_lem fuel array_size (zeros array_size) l b'\r' b'\n' rest
              (length-zeros array_size) h.plain (omega arith) (omega arith) h.line_fits h.line_fuel,
          stored_line m w v (zeros array_size),
          parsed,
        )
        (ground arith)

  -- A GET request with a query is read and closed, and nothing is sent.
  pub accept_request_query :
      (u q v : Bytes) (rest : Input) (k : Connection)
      → IsUrl u
      → IsWord q
      → IsLine fuel (codes "GET") (u ++ b'?' ∷ q) v
      → length u + 16 < array_size
      → k.input ≡ line_input (request_line (codes "GET") (u ++ b'?' ∷ q) v) rest
      → accept_request os fuel k ≡ done (emit closed (record k { input = rest }))
  unfolding answer
  accept_request_query u q v rest k hu hq h fits e =
      let buf =
        drop (length (request_line (codes "GET") (u ++ b'?' ∷ q) v) + 2) (zeros array_size) in
      let (s, parsed) = parse_get_query u q (v ++ b'\n' ∷ []) buf hu hq h.words fits in
      rw (accept_request-parsed (codes "GET") (u ++ b'?' ∷ q) v rest k _ h e parsed)

  -- A request whose method is neither GET nor POST, whatever the case, is read and closed, and
  -- nothing is sent, if no file has the empty name.
  pub accept_request_other :
      (m w v : Bytes) (rest : Input) (k : Connection)
      → IsLine fuel m w v
      → is_method m (codes "GET") ≡ false
      → is_method m (codes "POST") ≡ false
      → os.stat [] ≡ none
      → k.input ≡ line_input (request_line m w v) rest
      → accept_request os fuel k ≡ done (emit closed (record k { input = rest }))
  unfolding answer exec_get exec_get_stat
  accept_request_other m w v rest k h g p missing e =
      let buf = drop (length (request_line m w v) + 2) (zeros array_size) in
      rw (
        accept_request-parsed m w v rest k (read_request m w) h e
            (parse_other m w (v ++ b'\n' ∷ []) buf h.words g p),
        empty_path,
        missing,
      )

  -- A GET request without a query, with header lines behind it, each of which is not empty, has no
  -- zero byte, carriage return or newline and is at most 126 bytes long, so that it fits the array of
  -- 128 bytes: the file below htdocs is looked up and answered for, and the connection is closed. A
  -- longer line, such as browsers may send, is not covered.
  pub accept_request_file :
      (u v : Bytes) (hs : List Bytes) (rest : Input) (k : Connection)
      → IsUrl u
      → IsLine fuel (codes "GET") u v
      → IsHeader fuel hs
      → length hs + 1 < fuel
      → length u + 28 ≤ array_size
      → k.input ≡ line_input (request_line (codes "GET") u v) (header hs rest)
      → accept_request os fuel k ≡ (
          file_answer os
            (index_path (codes "htdocs" ++ u))
            rest
            (record k { input = header hs rest })
          >>= λ k'. done (emit closed k'))
  unfolding answer
  accept_request_file u v hs rest k hu h lines enough fits e =
      let buf = drop (length (request_line (codes "GET") u v) + 2) (zeros array_size) in
      let p = index_path (codes "htdocs" ++ u) in
      let (s, parsed, len) = parse_get u (v ++ b'\n' ∷ []) buf hu h.words (omega arith) in
      rw (
        accept_request-parsed (codes "GET") u v (header hs rest) k _ h e parsed,
        exec_get-file_answer os fuel hs rest (record k { input = header hs rest }) refl lines enough
            p s
            (index_path-IsText (codes "htdocs" ++ u) (
              All-append (λ c. c ≢ 0) (codes "htdocs") u (omega arith)
                (word-IsText u (url-IsWord u hu))))
            (omega (arith, len, length-append p (0 ∷ s), length-index_path (codes "htdocs" ++ u))),
      )
