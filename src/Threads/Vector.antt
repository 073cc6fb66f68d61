-- ===== src/Threads/Vector.antt =====
-- server/server_http.h: what the threads share, and the iterators of `vector<user_node> v`.
pub mod Laws
use face_perception.Common.{
  ℕ, ◌+◌, ◌*◌, Bool, Bytes, List, [], ◌∷◌, ◌++◌, ◌==◌, if◌then◌else◌, length, drop, set,
}
use face_perception.Outcome.{Outcome, done, fault, out_of_bounds, ◌>>=◌, ◌>>◌}
use face_perception.Attendance.Node.{UserNode}
use face_perception.Attendance.Roster.{Calendar, Roster}
use face_perception.Threads.Places.{Pointer}

-- The capacity that libstdc++ gives a full vector.
abbrev pub grown : ℕ → ℕ
grown n = if n == 0 then 1 else 2 * n

module _ (c : Calendar) where
  -- What the threads share but for the mutex: `capacity` is the size of the array that holds the
  -- elements, `block` tells the arrays apart, of which only the last is alive, and `tm` is the
  -- `struct tm` that `localtime` fills and points to.
  pub record Shared : Type 0 where
    pub roster : Roster
    pub capacity : ℕ
    pub block : ℕ
    pub tm : c.Tm
    pub console : Bytes

abbrev pub first : List UserNode → Outcome UserNode
first [] = fault out_of_bounds
first (n ∷ v) = done n

module _ {c : Calendar} where
  abbrev pub begin : Shared c → Pointer
  begin m = record { block = m.block; index = 0 }

  abbrev pub end : Shared c → Pointer
  end m = record { block = m.block; index = length m.roster.v }

  -- An iterator into an array that has been freed is not used.
  abbrev pub alive : Shared c → Pointer → Outcome (Unit {0})
  alive m it = if it.block == m.block then done tt else fault out_of_bounds

  -- `*it`
  unfoldable pub element : Shared c → Pointer → Outcome UserNode
  element m it = alive m it >> first (drop it.index m.roster.v)

  -- `it == v.end()`
  unfoldable pub at_end : Shared c → Pointer → Outcome Bool
  at_end m it = alive m it >> done (it.index == length m.roster.v)

  -- `*it = cur`, for an element that `at` has read.
  abbrev pub store_at : Shared c → Pointer → UserNode → Shared c
  store_at m it cur = record m { roster = record m.roster { v = set m.roster.v it.index cur } }

  -- `v.push_back(n)` moves the elements to a larger array if this one is full.
  unfoldable pub push_back : Shared c → UserNode → Shared c
  push_back m n =
      let r : Roster = record m.roster { v = m.roster.v ++ n ∷ [] } in
      if length m.roster.v == m.capacity
      then record m { roster = r; capacity = grown m.capacity; block = m.block + 1 }
      else record m { roster = r }
