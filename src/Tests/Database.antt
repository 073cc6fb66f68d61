-- ===== src/Tests/Database.antt =====
-- Runs of the database access, and its theorems at concrete inputs.
use face_perception.Common.{◌≡◌, refl, true, some, Bytes, List, [], ◌∷◌, ◌++◌, codes, arith, map}
use face_perception.Outcome.{done, fault, out_of_bounds}
use face_perception.Database.Library.{Result, Library, inter_link}
use face_perception.Database.Insert.{Visit, insert_text, insert_query}
use face_perception.Database.Insert.Laws.{literals, insert_query_roundtrip, insert_text_moved}
use face_perception.Database.Insert.{insert}
use face_perception.Database.Trial.{constructed, results, trial}
use face_perception.Database.Trial.Laws.{tabbed, all_tabbed, trial_lem}
use face_perception.Database.Page.{show_base}
use face_perception.Database.Page.Laws.{table_page, show_base_lem, show_base-wide}

-- A database whose state is the table that every query gives.
abbrev library : Library
library = record {
  Db = Result;
  real_connect = λ host user passwd name port db. (true, db);
  query = λ text db. (true, db);
  store_result = λ db. some db;
}

abbrev visit : Visit
visit = record {
  name = codes "zhou";
  sub_number = codes "7";
  begin_time = codes "8:00";
  end_time = codes "9:00";
  total_time = codes "1";
}

insert_query_roundtrip_example :
    literals (insert_query visit)
    ≡ codes "zhou" ∷ codes "7" ∷ codes "8:00" ∷ codes "9:00" ∷ codes "1" ∷ []
insert_query_roundtrip_example =
    insert_query_roundtrip visit (omega arith) (omega arith) (omega arith) (omega arith)
      (omega arith)

insert_text_moved_run :
    insert_text (record visit { name = codes "a','b"; sub_number = codes "c" })
    ≡ insert_text (record visit { name = codes "a"; sub_number = codes "b','c" })
insert_text_moved_run = insert_text_moved visit (codes "a") (codes "b") (codes "c")

abbrev rows : List (List Bytes)
rows = (codes "zhou" ∷ codes "7" ∷ []) ∷ (codes "li" ∷ codes "8" ∷ []) ∷ []

abbrev table : Result
table = record { fields = codes "Name" ∷ codes "Id" ∷ []; rows = map (map some) rows }

show_base_lem_example : show_base library table ≡ done (table_page table.fields rows)
unfolding inter_link
show_base_lem_example =
    show_base_lem library table table.fields rows refl (omega arith) (omega arith) (omega arith)

trial_run :
    trial library table
    ≡ done (
        constructed
        ++ (results true true
            ++ (codes "show table success\n"
                ++ (tabbed (codes "Name" ∷ codes "Id" ∷ [] ∷ [] ∷ []) ++ all_tabbed rows))))
unfolding inter_link insert
trial_run = trial_lem library table table.fields rows refl (omega arith) (omega arith) (omega arith)

abbrev wide_table : Result
wide_table = record {
  fields = codes "a" ∷ codes "b" ∷ codes "c" ∷ codes "d" ∷ codes "e" ∷ [];
  rows = [];
}

show_base-wide_run : show_base library wide_table ≡ fault out_of_bounds
unfolding inter_link
show_base-wide_run = show_base-wide library wide_table wide_table refl (omega arith)
