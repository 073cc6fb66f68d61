-- ===== src/Database/Library.antt =====
-- What mysql/mysql.h uses of the client library, and the members of its class `Mysql`.
use face_perception.Common.{ℕ, Bool, Bytes, codes, Option, List}

-- What `mysql_store_result` gives: the names of the fields, and the rows in the order in which
-- `mysql_fetch_row` returns them. A value that is NULL is `none`.
pub record Result : Type 0 where
  pub fields : List Bytes
  pub rows : List (List (Option Bytes))

-- `mysql_real_connect`, `mysql_query` and `mysql_store_result`, over a state `Db` of the server and
-- the connection. A query gives whether it returned 0.
pub record Library : Type 1 where
  pub Db : Type 0
  pub real_connect : Bytes → Bytes → Bytes → Bytes → ℕ → Db → Bool × Db
  pub query : Bytes → Db → Bool × Db
  pub store_result : Db → Option Result

-- The texts of the class.
pub record Mysql : Type 0 where
  pub host : Bytes
  pub user_name : Bytes
  pub user_db : Bytes
  pub passwd : Bytes
  pub name : Bytes
  pub sub_number : Bytes
  pub begin_time : Bytes
  pub end_time : Bytes
  pub work_time : Bytes

-- The constructor.
unfoldable pub new_mysql : Bytes → Bytes → Bytes → Bytes → Mysql
new_mysql host user_name passwd user_db = record {
  host = host;
  user_name = user_name;
  user_db = user_db;
  passwd = passwd;
  name = codes "";
  sub_number = codes "";
  begin_time = codes "";
  end_time = codes "";
  work_time = codes "";
}

-- The constructor with its default arguments.
abbrev pub default_mysql : Mysql
default_mysql = new_mysql (codes "127.0.0.1") (codes "root") (codes "root") (codes "mytest")

module _ (lib : Library) where
  unfoldable pub inter_link : Mysql → lib.Db → Bool × lib.Db
  inter_link m db = lib.real_connect m.host m.user_name m.passwd m.user_db 3306 db
