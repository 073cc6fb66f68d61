-- ===== src/Tests/Client.antt =====
-- Runs of the client, and its theorems at concrete inputs.
use face_perception.Common.{
  Bool, List, ◌==◌, if◌then◌else◌, ◌≡◌, refl, true, false, some, none, [], ◌∷◌, ◌++◌, codes, arith,
  replicate,
}
use face_perception.Common.Int.{negsuc}
use face_perception.Outcome.{done, fault, out_of_bounds}
use face_perception.Memory.{to_lower}
use face_perception.Net.{Sockets, to_port}
use face_perception.Client.Input.{get_str}
use face_perception.Client.Input.Laws.{get_str_lem, get_str_end}
use face_perception.Http.Cgi.{atoi, read_number, clamp, read_digits}
use face_perception.Client.Session.{starts_with_case, Address, main}
use face_perception.Client.Session.Laws.{IsMessage, session}

hello_read :
    get_str (replicate 16 0) 15 (codes "hello\nmore")
    ≡ done (6, codes "hello" ++ replicate 11 0, codes "more")
hello_read =
    get_str_lem 15 (replicate 16 0) (codes "hello") (codes "more") (omega arith) (omega arith)
      (omega arith)

get_str_end_run : get_str (replicate 16 0) 15 [] ≡ fault out_of_bounds
get_str_end_run = get_str_end 15 (replicate 15 0) (omega arith)

abbrev net : Sockets
net = record { socket = some 3; bind = λ port. true; listen = true; epoll_create = none }

message : IsMessage (codes "hello")
unfolding starts_with_case to_lower
message = (omega arith, omega arith, λ rest. refl)

-- A server that accepts one connection to this address.
abbrev connect : Address → List Bool
connect client = if client.port == 80 then true ∷ false ∷ [] else false ∷ []

session_example :
    main 8 (codes "client" ∷ codes "::1" ∷ codes "80" ∷ []) net connect (codes "hello\nquit\n")
    ≡ done
        (record { sent = (codes "hello" ++ 0 ∷ []) ∷ []; closed = true; value = some (negsuc 0) })
unfolding atoi read_number clamp read_digits to_port
session_example =
    session 8 (codes "client") (codes "::1") (codes "80") [] net 3 (codes "hello" ∷ []) [] connect
      [] refl refl (message, tt) (omega arith)
