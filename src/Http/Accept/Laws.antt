-- ===== src/Http/Accept/Laws.antt =====
-- The answer to a whole request, from the bytes on the connection to what is sent.
use face_perception.Common.{
  ℕ, ◌+◌, ◌≤◌, ◌<◌, ◌≡◌, refl, ap, ◌∙◌, false, Bytes, List, [], ◌∷◌, ◌++◌, append_assoc, arith,
  codes, All, length, drop, length-append,
}
use face_perception.Outcome.{done, ◌>>=◌}
use face_perception.Memory.{zeros}
use face_perception.Memory.Laws.{Holds, length-zeros}
use face_perception.Attendance.Roster.{Calendar}
use face_perception.Http.Line.{Input, byte, arriving}
use face_perception.Http.Line.Laws.{IsPlain, stored, get_line_crlf}
use face_perception.Http.Request.{Request, new_request, path_size, get_path_method_query}
use face_perception.Http.Request.Laws.{index_path}
use face_perception.Http.Request.Parse.{request_line, IsRequest}
use face_perception.Http.Request.Methods.{IsUrl, parse_get}
use face_perception.Http.World.{size, Os, World, closed, emit}
use face_perception.Http.Files.Laws.{header, IsHeader, answer, exec_get-answer}
use face_perception.Http.Accept.{handle, accept}

-- A request line and its header lines, as they come over the connection.
abbrev pub arriving_request : Bytes → Bytes → Bytes → List Bytes → Input → Input
arriving_request m u v hs rest =
    arriving (request_line m u v) ++ byte b'\r' ∷ byte b'\n' ∷ header hs rest

-- The request fits the buffers, and the fuel is enough for its lines.
pub record IsWire (fuel : ℕ) (m u v : Bytes) (hs : List Bytes) : Type 0 where
  pub words : IsRequest m u (v ++ b'\n' ∷ [])
  pub plain : All IsPlain (request_line m u v)
  pub line_fits : length (request_line m u v) + 2 ≤ size
  pub line_fuel : length (request_line m u v) < fuel
  pub lines : IsHeader fuel hs
  pub header_fuel : length hs + 1 < fuel

-- The line in its buffer, with the newline taken as part of the protocol.
pub stored_line :
    (m u v buf : Bytes)
    → stored buf (request_line m u v)
      ≡ request_line m u (v ++ b'\n' ∷ []) ++ 0 ∷ drop (length (request_line m u v) + 2) buf
unfolding stored
stored_line m u v buf = simp append_assoc

pub length-index_path : (t : Bytes) → length (index_path t) ≤ length t + 10
length-index_path t = ground (arith, length-append t (codes "index.html"))

module _ (c : Calendar) (os : Os) (fuel ch now : ℕ) where
  -- The first line is read and taken apart; what is left is decided by `cgi`.
  pub accept-parsed :
      (m u v : Bytes) (hs : List Bytes) (rest : Input) (w : World) (out : Request)
      → IsWire fuel m u v hs
      → w.input ≡ arriving_request m u v hs rest
      → get_path_method_query (stored (zeros size) (request_line m u v)) new_request ≡ done out
      → accept c os fuel ch now w ≡ (
          handle c os fuel ch now out (record w { input = header hs rest }) >>= λ w'.
          done (emit closed w'))
  unfolding accept
  accept-parsed m u v hs rest w out wire e parsed = rw (
    e,
    get_line_crlf fuel size (zeros size) (request_line m u v) (header hs rest) (length-zeros size)
        wire.plain wire.line_fits wire.line_fuel,
    parsed,
  )

  handle_file :
      (out : Request) (p : Bytes) (hs : List Bytes) (rest : Input) (w : World)
      → out.cgi ≡ false
      → Holds out.path p
      → length out.path ≡ path_size
      → length p + 12 ≤ path_size
      → w.input ≡ header hs rest
      → IsHeader fuel hs
      → length hs + 1 < fuel
      → handle c os fuel ch now out w ≡ answer os p rest w
  unfolding handle
  handle_file out p hs rest w file h len fits e lines enough =
      rw (file, h.splits)
        (exec_get-answer os fuel hs rest w e lines enough p h.rest h.is_text
          (omega (arith, len, ap length h.splits, length-append p (0 ∷ h.rest))))

  -- GET of a resource with no query, with header lines behind it that are not empty and, with their
  -- ends, fit the array of 1024 bytes: the file below htdocs is looked up and answered for, and the
  -- connection is closed.
  pub accept_get :
      (u v : Bytes) (hs : List Bytes) (rest : Input) (w : World)
      → IsUrl u
      → IsWire fuel (codes "GET") u v hs
      → length u + 28 ≤ path_size
      → w.input ≡ arriving_request (codes "GET") u v hs rest
      → accept c os fuel ch now w ≡ (
          answer os (index_path (codes "htdocs" ++ u)) rest (record w { input = header hs rest })
          >>= λ w'. done (emit closed w'))
  accept_get u v hs rest w url wire fits e =
      let after = drop (length (request_line (codes "GET") u v) + 2) (zeros size) in
      let (out, parsed, p) = parse_get u (v ++ b'\n' ∷ []) after url wire.words (omega arith) in
      let path = index_path (codes "htdocs" ++ u) in
      accept-parsed (codes "GET") u v hs rest w out wire e
        (rw (stored_line (codes "GET") u v (zeros size)) parsed)
      ∙ rw (
          handle_file out path hs rest (record w { input = header hs rest }) p.cgi_is p.path_is
            p.path_len (omega (arith, length-index_path (codes "htdocs" ++ u))) refl wire.lines
            wire.header_fuel)
