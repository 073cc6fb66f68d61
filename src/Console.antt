-- ===== src/Console.antt =====
-- The lines for the console of comm/comm.h, server/server.h and client/client.h (`print_log`), and of
-- server/server_http.h (`show_resource`, and the ones of `get_sock`).
use face_perception.Common.{
  ℕ, Bool, true, false, ◌≡◌, ◌↔◌, refl, Bytes, [], ◌++◌, codes, Option, none, some, if◌then◌else◌,
}
use face_perception.Common.Int.{ℤ}
use face_perception.Outcome.{Outcome, done, fault, assertion_failed, ◌>>=◌}
use face_perception.Memory.{literal, c_text}
use face_perception.Net.{Sockets, to_port}
use face_perception.Http.Main.{get_sock}

-- `cout << str << endl`
unfoldable line : Bytes → Outcome Bytes
line str = do t ← c_text str; done (t ++ codes "\n")

-- `print_log` of comm/comm.h, where a null pointer is `none`.
unfoldable print_log : Option Bytes → Outcome Bytes
print_log none = done []
print_log (some str) = line str

-- The same of server/server.h, where DEBUG is defined, and of client/client.h.
unfoldable server_log : Option Bytes → Outcome Bytes
server_log none = fault assertion_failed
server_log (some str) = line str

unfoldable client_log : Option Bytes → Outcome Bytes
client_log none = fault assertion_failed
client_log (some str) = line str

unfoldable show_resource : Bytes → Bytes → Bytes → Outcome Bytes
unfolding line
show_resource method url treaty = do
  first ← line (codes "method : " ++ method)
  second ← line (codes "url    : " ++ url)
  third ← line (codes "treaty : " ++ treaty)
  done (first ++ (second ++ third))

-- What `get_sock` of server/server_http.h writes.
unfoldable get_sock_log : Sockets → ℤ → Outcome Bytes
unfolding print_log line
get_sock_log net port = elim net.socket [
  | none ↦ print_log (some (literal "create server sock failed"))
  | some server_sock ↦
      if net.bind (to_port port)
      then (if net.listen then done [] else print_log (some (literal "listen failed")))
      else print_log (some (literal "bind failed"))
]

-- What `get_sock` writes tells whether it returns a socket.
abbrev LogsFailure : Sockets → ℤ → Type 0
LogsFailure net port =
    (get_sock_log net port ≡ done []) ↔ ((sock : ℕ) × (get_sock net port ≡ some sock))

log_cases :
    (net : Sockets) (port : ℤ) (s : Option ℕ) (bound listens : Bool)
    → net.socket ≡ s
    → net.bind (to_port port) ≡ bound
    → net.listen ≡ listens
    → LogsFailure net port
unfolding get_sock_log get_sock print_log line c_text
log_cases net port none bound listens e f g = rw e (λ h. cc, λ h. cc)
log_cases net port (some k) false listens e f g = rw (e, f) (λ h. cc, λ h. cc)
log_cases net port (some k) true false e f g = rw (e, f, g) (λ h. cc, λ h. cc)
log_cases net port (some k) true true e f g = rw (e, f, g) (λ h. (k, refl), λ h. refl)

-- `get_sock` returns a socket exactly when it writes nothing: each call that fails is named on the
-- console.
get_sock-log : (net : Sockets) (port : ℤ) → LogsFailure net port
get_sock-log net port = log_cases net port net.socket _ _ refl refl refl
