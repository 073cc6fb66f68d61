-- ===== src/Attendance/Node.antt =====
-- server/server_http.h: `struct user_node` and `buynode`.
use face_perception.Common.{ℕ, Bytes, []}
use face_perception.Common.Int.{ℤ, pos}

-- A C++ `string` is its bytes. `sec`, the only one of the counters that may become negative, is an
-- integer; `data`, a `double` that is only ever increased by 1, is the number `days`; a `time_t`
-- counts the seconds since 1970.
pub record UserNode : Type 0 where
  pub name : Bytes
  pub id : Bytes
  pub arrive_time : Bytes
  pub leave_time : Bytes
  pub sec : ℤ
  pub min : ℕ
  pub hour : ℕ
  pub days : ℕ
  pub start_time : ℕ
  pub end_time : ℕ

-- The constructor with arguments.
abbrev pub user_node : Bytes → Bytes → Bytes → Bytes → ℕ → UserNode
user_node name id ar_time lev_time d = record {
  name = name;
  id = id;
  arrive_time = ar_time;
  leave_time = lev_time;
  sec = pos 0;
  min = 0;
  hour = 0;
  days = d;
  start_time = 0;
  end_time = 0;
}

-- `buynode(name, id)`, with its default arguments.
abbrev pub buynode : Bytes → Bytes → UserNode
buynode name id = user_node name id [] [] 0
