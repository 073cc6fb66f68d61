-- ===== src/Client/Plain.antt =====
-- client/client.h and client/client.cpp: the client of the server on epoll, whose functions have the
-- text of client/client_http.h and client/client_http.cpp.
use face_perception.Common.{ℕ, Bool, Bytes, Option, List}
use face_perception.Common.Int.{ℤ}
use face_perception.Outcome.{Outcome}
use face_perception.Net.{Sockets}
use face_perception.Client.Input as HttpInput
use face_perception.Client.Session as HttpSession

abbrev get_str : Bytes → ℕ → Bytes → Outcome (ℕ × Bytes × Bytes)
get_str = HttpInput.get_str

abbrev get_sock : Bytes → ℤ → Sockets → HttpSession.Address × Option ℕ
get_sock = HttpSession.get_sock

abbrev main :
    ℕ → List Bytes → Sockets → (HttpSession.Address → List Bool) → Bytes → Outcome HttpSession.Ended
main = HttpSession.main
