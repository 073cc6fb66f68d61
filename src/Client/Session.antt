-- ===== src/Client/Session.antt =====
-- client/client_http.h: `get_sock`; client/client_http.cpp: `main`.
pub mod Laws
use face_perception.Common.{
  ℕ, zero, suc, ◌+◌, ◌-◌, Bool, true, false, Bytes, Option, none, some, List, [], ◌∷◌, ◌++◌, codes,
  leb, ltb, ◌==◌, if◌then◌else◌, length, take,
}
use face_perception.Common.Int.{ℤ, negsuc}
use face_perception.Outcome.{Outcome, done, fault, spins, out_of_bounds, ◌>>=◌}
use face_perception.Memory.{zeros, to_lower}
use face_perception.Net.{Sockets, to_port}
use face_perception.Http.Cgi.{atoi}
use face_perception.Client.Input.{get_str}

abbrev pub buf_size : ℕ
buf_size = 1024

-- `strncasecmp(buf, s, n) == 0` for the text `s` of n bytes.
unfoldable pub starts_with_case : Bytes → Bytes → Outcome Bool
unfolding to_lower
starts_with_case buf [] = done true
starts_with_case [] (y ∷ s) = fault out_of_bounds
starts_with_case (x ∷ buf) (y ∷ s) =
    let rest = starts_with_case buf s in
    if to_lower x == to_lower y then (if x == 0 then done true else rest) else done false

-- How the inner loop ends: by `quit`, or by the return of `main`.
pub data Ending : Type 0 where
  quits : Ending
  returns : Ending

-- The inner loop: what is sent, what is left of the input, and how it ends.
unfoldable pub talk : ℕ → Bytes → Outcome (List Bytes × Bytes × Ending)
talk zero input = spins
talk (suc fuel) input = do
  (len, buf, rest) ← get_str (zeros buf_size) (buf_size - 1) input
  quit ← starts_with_case buf (codes "quit")
  let more = (talk fuel rest >>= λ t. done (take len buf ∷ t.0, t.1, t.2))
  if leb buf_size len
      then done ([], rest, returns)
      else if quit
      then done ([], rest, quits)
      else more

-- What the client leaves behind: what it has sent, whether it has closed the socket, and its value,
-- if it has returned.
pub record Ended : Type 0 where
  pub sent : List Bytes
  pub closed : Bool
  pub value : Option ℤ

-- The outer loop, with what the calls of `connect` give: the socket is the same for each of them,
-- and a call that fails ends `main` with -1. It is still waiting when the list is used up.
unfoldable pub connects : ℕ → List Bool → Bytes → Outcome Ended
connects fuel [] input = done (record { sent = []; closed = false; value = none })
connects fuel (false ∷ calls) input =
    done (record { sent = []; closed = true; value = some (negsuc 0) })
connects fuel (true ∷ calls) input = do
  (sent, rest, end) ← talk fuel input
  more ← elim end [
    | quits ↦ connects fuel calls rest
    | returns ↦ done (record { sent = []; closed = false; value = some (negsuc 0) })
  ]
  done (record more { sent = sent ++ more.sent })

-- `struct sockaddr_in`, as it is filled: the text that `inet_pton` is given, and the port.
pub record Address : Type 0 where
  pub ip : Bytes
  pub port : ℕ

-- The address, and the socket or -1: only the call of `socket` is looked at.
unfoldable pub get_sock : Bytes → ℤ → Sockets → Address × Option ℕ
get_sock ip port net = (record { ip = ip; port = to_port port }, net.socket)

-- `main` behind `get_sock`.
unfoldable pub start : ℕ → Option ℕ → List Bool → Bytes → Outcome Ended
start fuel (some sock) calls input = connects fuel calls input
start fuel none calls input = done (record { sent = []; closed = false; value = some (negsuc 0) })

-- `main(argc, argv)`, with what the calls of `connect` to an address give.
unfoldable pub main : ℕ → List Bytes → Sockets → (Address → List Bool) → Bytes → Outcome Ended
unfolding get_sock
main fuel (program ∷ ip ∷ port ∷ more) net connect input =
    let (client, sock) = get_sock ip (atoi port) net in start fuel sock (connect client) input
main fuel argv net connect input =
    done (record { sent = []; closed = false; value = some (negsuc 0) })
