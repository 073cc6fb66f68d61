-- ===== src/Net.antt =====
-- What both servers and the client use of the socket interface to start.
use face_perception.Common.{ℕ, ◌-◌, ◌%◌, ◌^◌, Bool, Option}
use face_perception.Common.Int.{ℤ, pos, negsuc}

-- The calls at start-up: `socket`, `bind` to a port, `listen`, and `epoll_create`; `none` is -1.
pub record Sockets : Type 0 where
  pub socket : Option ℕ
  pub bind : ℕ → Bool
  pub listen : Bool
  pub epoll_create : Option ℕ

-- The port that `htons` is given: the low 16 bits of an `int`.
unfoldable pub to_port : ℤ → ℕ
to_port (pos n) = n % 2 ^ 16
to_port (negsuc n) = 2 ^ 16 - 1 - n % 2 ^ 16
