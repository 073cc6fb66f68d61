-- ===== src/Database/Insert.antt =====
-- mysql/mysql.h: `Insert_base` and `insert`.
pub mod Laws
use face_perception.Common.{Bool, Bytes, [], ◌∷◌, ◌++◌, codes, ◌==◌, if◌then◌else◌}
use face_perception.Database.Library.{Library, Mysql}

-- A visit as `insert` is given it.
pub record Visit : Type 0 where
  pub name : Bytes
  pub sub_number : Bytes
  pub begin_time : Bytes
  pub end_time : Bytes
  pub total_time : Bytes

unfoldable pub insert_base : Visit → Mysql → Mysql
insert_base v m = record m {
  name = v.name;
  sub_number = v.sub_number;
  begin_time = v.begin_time;
  end_time = v.end_time;
  work_time = v.total_time;
}

-- The text of the query.
unfoldable pub insert_text : Visit → Bytes
insert_text v =
    codes "INSERT INTO mytest values('"
    ++ (v.name
        ++ (codes "','"
            ++ (v.sub_number
                ++ (codes "','"
                    ++ (v.begin_time
                        ++ (codes "','"
                            ++ (v.end_time ++ (codes "','" ++ (v.total_time ++ codes "');")))))))))

-- `tmp.c_str()`, as far as a reader of C text looks: up to the first zero byte.
abbrev pub cut_at_zero : Bytes → Bytes
cut_at_zero [] = []
cut_at_zero (c ∷ s) = if c == 0 then [] else c ∷ cut_at_zero s

-- The query that is passed on.
unfoldable pub insert_query : Visit → Bytes
insert_query v = cut_at_zero (insert_text v)

module _ (lib : Library) where
  unfoldable pub insert : Visit → Mysql → lib.Db → Bool × Mysql × lib.Db
  insert v m db =
      let (success, db') = lib.query (insert_query v) db in (success, insert_base v m, db')
