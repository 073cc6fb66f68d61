-- ===== src/Http/Accept/Visit.antt =====
-- A GET request that signs a user in or out, from the bytes on the connection to the roster.
use face_perception.Common.{
  ℕ, ◌+◌, ◌<◌, ◌≤◌, ◌≡◌, refl, ap, ◌∙◌, true, Bytes, List, [], ◌∷◌, ◌++◌, append_assoc, arith,
  codes, Option, some, length, drop,
}
use face_perception.Outcome.{done}
use face_perception.Memory.{zeros}
use face_perception.Memory.Laws.{IsText, Holds}
use face_perception.Attendance.Roster.{Calendar, Roster, send_vector}
use face_perception.Attendance.Node.{UserNode}
use face_perception.Attendance.Query.Laws.{IsTextWithout, query_text}
use face_perception.Attendance.Roster.Lookup.{lookup}
use face_perception.Attendance.Roster.Visits.{Updates}
use face_perception.Attendance.Roster.Invariant.{IsValid}
use face_perception.Attendance.Roster.Total.{HasRoom, send_vector_done}
use face_perception.Http.Cgi.Child.{get_env, get_printed}
use face_perception.Http.Cgi.Laws.{status_events, program_events, exec_cgi_get}
use face_perception.Http.Line.{Input}
use face_perception.Http.Request.{Request, path_size, query_size}
use face_perception.Http.Request.Laws.{IsWord, index_path}
use face_perception.Http.Request.Parse.{request_line}
use face_perception.Http.Request.Methods.{IsUrl, parse_get_query}
use face_perception.Http.World.{size, ends, Os, World, sent, piped, closed, emit}
use face_perception.Http.Files.Laws.{header, IsHeader, emit_all}
use face_perception.Http.Accept.Laws.{arriving_request, IsWire, stored_line, accept-parsed}
use face_perception.Http.Accept.{exec_post, handle, accept}

-- The conditions under which a visit is recorded.
pub record IsVisit (c : Calendar) (now : ℕ) (key name key' id : Bytes) (r : Roster) : Type 0 where
  pub key_ok : IsTextWithout b'=' key
  pub name_ok : IsTextWithout b'&' name
  pub key'_ok : IsTextWithout b'=' key'
  pub id_ok : IsText id
  pub roster_ok : IsValid r
  pub room :
      (n : UserNode)
      → lookup (record { name = name; id = id }) r.v ≡ some n
      → HasRoom c (c.localtime now) n

module _ (c : Calendar) (os : Os) (fuel ch now : ℕ) where
  handle_program :
      (out : Request) (key name key' id p output : Bytes) (hs : List Bytes) (rest : Input)
      (w : World)
      → IsVisit c now key name key' id w.roster
      → os.forks ≡ true
      → os.program p (get_env (query_text key name key' id)) [] ≡ ends output
      → length (query_text key name key' id) + 14 ≤ query_size
      → out.cgi ≡ true
      → Holds out.path p
      → Holds out.method (codes "GET")
      → Holds out.query (query_text key name key' id)
      → w.input ≡ header hs rest
      → IsHeader fuel hs
      → length hs + 1 < fuel
      → (visit : Roster × Option Bytes) × (handle c os fuel ch now out w
          ≡ done (
              emit_all
                (program_events [] (get_printed (query_text key name key' id) ++ output))
                (record w { input = rest; roster = visit.0 })))
        × Updates c (record { name = name; id = id }) (c.localtime now) w.roster.v visit.0.v
  unfolding handle exec_post
  handle_program out key name key' id p output hs rest w visit forks runs env cgi hp hm hq e lines
        enough =
      let (after, recorded, updates) =
        send_vector_done c key name key' id hq.rest now w.roster visit.key_ok visit.name_ok
          visit.key'_ok visit.id_ok visit.roster_ok visit.room in
      (
        after,
        rw (cgi, ap (λ q. send_vector c q now w.roster) hq.splits ∙ recorded)
            (exec_cgi_get os fuel ch hs rest (record w { roster = after.0 }) out.path out.method
              out.query p (query_text key name key' id) output forks runs hm hp hq env e lines
              (omega arith)),
        updates,
      )

  pub accept_get_query :
      (u key name key' id v output : Bytes) (hs : List Bytes) (rest : Input) (w : World)
      → IsUrl u
      → IsWord (query_text key name key' id)
      → IsVisit c now key name key' id w.roster
      → os.forks ≡ true
      → os.program
          (index_path (codes "htdocs" ++ u))
          (codes "REQUEST_METHOD:GET" ∷ (codes "QUERY_STRING:" ++ query_text key name key' id) ∷ [])
          []
        ≡ ends output
      → length (query_text key name key' id) + 14 ≤ query_size
      → IsWire fuel (codes "GET") (u ++ b'?' ∷ query_text key name key' id) v hs
      → length u + 16 < path_size
      → w.input ≡ arriving_request (codes "GET") (u ++ b'?' ∷ query_text key name key' id) v hs rest
      → (w' : World) × (accept c os fuel ch now w ≡ done w')
        × (w'.trace
            ≡ w.trace
              ++ (status_events
                  ++ piped []
                    ∷ sent (
                        codes " GET  query env :QUERY_STRING:"
                        ++ ((query_text key name key' id ++ codes "\n") ++ output))
                    ∷ closed
                    ∷ []))
        × (w'.input ≡ rest)
        × Updates c (record { name = name; id = id }) (c.localtime now) w.roster.v w'.roster.v
  accept_get_query u key name key' id v output hs rest w url word visit forks runs env wire fits e =
      let q = query_text key name key' id in
      let line = request_line (codes "GET") (u ++ b'?' ∷ q) v in
      let (out, parsed, p) =
        parse_get_query u q (v ++ b'\n' ∷ []) (drop (length line + 2) (zeros size)) url word
          wire.words fits in
      let (after, handled, updates) =
        handle_program out key name key' id (index_path (codes "htdocs" ++ u)) output hs rest
          (record w { input = header hs rest }) visit forks runs env p.cgi_is p.path_is p.method_is
          p.query_is refl wire.lines wire.header_fuel in
      (
        emit closed (
            emit_all (program_events [] (get_printed q ++ output))
              (record w { input = rest; roster = after.0 })),
        accept-parsed c os fuel ch now (codes "GET") (u ++ b'?' ∷ q) v hs rest w out wire e
              (rw (stored_line (codes "GET") (u ++ b'?' ∷ q) v (zeros size)) parsed)
            ∙ rw handled,
        simp append_assoc,
        refl,
        updates,
      )
