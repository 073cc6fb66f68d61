-- ===== src/Client/Session/Laws.antt =====
-- What a session of the client sends.
use face_perception.Common.{
  ℕ, zero, suc, ◌+◌, ◌-◌, ◌≤◌, ◌<◌, ◌≡◌, refl, ap, Bool, true, false, Bytes, some, List, [], ◌∷◌,
  ◌++◌, append-nil, arith, codes, map, All, length, take, drop,
}
use face_perception.Common.Int.{negsuc}
use face_perception.Outcome.{done}
use face_perception.Memory.{zeros, to_lower}
use face_perception.Memory.Laws.{length-zeros}
use face_perception.Net.{Sockets, to_port}
use face_perception.Http.Cgi.{atoi}
use face_perception.Client.Input.{get_str}
use face_perception.Client.Input.Laws.{IsLineText, get_str_lem}
use face_perception.Client.Session.{
  buf_size, starts_with_case, Ending, quits, talk, connects, Address, get_sock, start, main,
}

-- A line that fits and does not start like `quit`.
abbrev pub IsMessage : Bytes → Type 0
IsMessage t =
    IsLineText t
    × (length t + 2 ≤ buf_size - 1)
    × ((rest : Bytes) → starts_with_case (t ++ 0 ∷ 0 ∷ rest) (codes "quit") ≡ done false)

-- Lines with their newlines, in front of other input.
abbrev pub typed : List Bytes → Bytes → Bytes
typed [] rest = rest
typed (l ∷ ls) rest = l ++ b'\n' ∷ typed ls rest

read_zeros :
    (t rest : Bytes)
    → IsLineText t
    → length t + 2 ≤ buf_size - 1
    → get_str (zeros buf_size) (buf_size - 1) (t ++ b'\n' ∷ rest)
      ≡ done (suc (length t), t ++ 0 ∷ 0 ∷ drop (length t + 2) (zeros buf_size), rest)
read_zeros t rest h fits =
    get_str_lem (buf_size - 1) (zeros buf_size) t rest h fits (omega (arith, length-zeros buf_size))

take-suc : (t r : Bytes) → take (suc (length t)) (t ++ 0 ∷ r) ≡ t ++ 0 ∷ []
take-suc [] r = refl
take-suc (c ∷ t) r = ap (◌∷◌ c) (take-suc t r)

talk-quit :
    (fuel : ℕ) (rest : Bytes) → talk (suc fuel) (codes "quit\n" ++ rest) ≡ done ([], rest, quits)
unfolding talk starts_with_case to_lower
talk-quit fuel rest = rw (read_zeros (codes "quit") rest (omega arith) (omega arith))

talk-message :
    (fuel : ℕ) (t rest : Bytes) {out : List Bytes × Bytes × Ending}
    → IsMessage t
    → talk fuel rest ≡ done out
    → talk (suc fuel) (t ++ b'\n' ∷ rest) ≡ done ((t ++ 0 ∷ []) ∷ out.0, out.1, out.2)
unfolding talk
talk-message fuel t rest h e =
    rw
      (
        read_zeros t rest h.0 h.1,
        h.2 (drop (length t + 2) (zeros buf_size)),
        e,
        take-suc t (0 ∷ drop (length t + 2) (zeros buf_size)),
      )
      (ground arith)

talk_lem :
    (fuel : ℕ) (ls : List Bytes) (rest : Bytes)
    → All IsMessage ls
    → length ls < fuel
    → talk fuel (typed ls (codes "quit\n" ++ rest)) ≡ done (map (λ l. l ++ 0 ∷ []) ls, rest, quits)
talk_lem zero ls rest h enough = elim enough [ ]
talk_lem (suc fuel) [] rest h enough = talk-quit fuel rest
talk_lem (suc fuel) (l ∷ ls) rest h enough =
    talk-message fuel l (typed ls (codes "quit\n" ++ rest)) h.0
      (talk_lem fuel ls rest h.1 (omega arith))

-- A user who types messages and then `quit` sends each message with a zero byte in place of its
-- newline; the client then connects the same socket to the same address again, and when that fails
-- closes it and returns -1. The fuel is more than the number of messages.
pub session :
    (fuel : ℕ) (program ip port : Bytes) (more : List Bytes) (net : Sockets) (sock : ℕ)
    (ls : List Bytes) (rest : Bytes) (connect : Address → List Bool) (calls : List Bool)
    → net.socket ≡ some sock
    → connect (record { ip = ip; port = to_port (atoi port) }) ≡ true ∷ false ∷ calls
    → All IsMessage ls
    → length ls < fuel
    → main fuel (program ∷ ip ∷ port ∷ more) net connect (typed ls (codes "quit\n" ++ rest))
      ≡ done (record { sent = map (λ l. l ++ 0 ∷ []) ls; closed = true; value = some (negsuc 0) })
unfolding main start connects get_sock
session fuel program ip port more net sock ls rest connect calls socket there h enough =
    rw (socket, there, talk_lem fuel ls rest h enough, append-nil (map (λ l. l ++ 0 ∷ []) ls))
