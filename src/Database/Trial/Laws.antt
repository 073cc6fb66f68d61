-- ===== src/Database/Trial/Laws.antt =====
-- mysql/mysql.cpp: what the trial prints.
use face_perception.Common.{
  Bool, Option, ◌-◌, ◌≤◌, ◌≡◌, refl, subst, Bytes, some, List, [], ◌∷◌, ◌++◌, append_assoc, codes,
  map, All, length,
}
use face_perception.Outcome.{done}
use face_perception.Database.Library.{Library, Result, inter_link}
use face_perception.Database.Insert.{insert}
use face_perception.Database.Table.{row_size, line_size, show_table}
use face_perception.Database.Table.Laws.{
  at-append, length-snoc, padded, blank, show_result_lem, fits,
}
use face_perception.Database.Page.Laws.{length-padded}
use face_perception.Database.Trial.{row, sql, constructed, results, print_line, print_lines, trial}

-- The fields of a line, each with a tab behind it.
abbrev pub tabbed : List Bytes → Bytes
tabbed [] = codes "\n"
tabbed (t ∷ texts) = t ++ (codes "\t" ++ tabbed texts)

abbrev pub all_tabbed : List (List Bytes) → Bytes
all_tabbed [] = []
all_tabbed (texts ∷ rows) = tabbed (padded texts) ++ all_tabbed rows

print_line_lem :
    (texts w : List Bytes) → print_line (length texts) (length w) (w ++ texts) ≡ done (tabbed texts)
unfolding print_line
print_line_lem [] w = refl
print_line_lem (t ∷ texts) w = rw (
  at-append w t texts,
  length-snoc w t,
  ← append_assoc w (t ∷ []) texts,
  print_line_lem texts (w ++ t ∷ []),
)

print_padded :
    (texts : List Bytes)
    → length texts ≤ row_size
    → print_line row_size 0 (padded texts) ≡ done (tabbed (padded texts))
print_padded texts h =
    subst (λ n. print_line n 0 (padded texts) ≡ done (tabbed (padded texts)))
      (length-padded texts h) (print_line_lem (padded texts) [])

print_lines_lem :
    (rows w tail : List (List Bytes))
    → All (λ texts. length texts ≤ row_size) rows
    → print_lines (length rows) (length w) (w ++ (map padded rows ++ tail)) ≡ done (all_tabbed rows)
unfolding print_lines
print_lines_lem [] w tail h = refl
print_lines_lem (texts ∷ rows) w tail h = rw (
  at-append w (padded texts) (map padded rows ++ tail),
  print_padded texts h.0,
  length-snoc w (padded texts),
  ← append_assoc w (padded texts ∷ []) (map padded rows ++ tail),
  print_lines_lem rows (w ++ padded texts ∷ []) tail h.1,
)

module _ (lib : Library) (db : lib.Db) where
  -- Whether the connection and the insertion succeed, and the state in which the table is read.
  abbrev pub linked : Bool
  linked = (inter_link lib sql db).0

  abbrev pub inserted : Bool
  inserted = (insert lib row sql (inter_link lib sql db).1).0

  abbrev pub read_table : Option Result
  read_table =
      lib.store_result
        (lib.query (codes "SELECT * FROM mytest")
          (insert lib row sql (inter_link lib sql db).1).2).1

-- Whether or not the connection and the insertion succeed, a table of at most four columns and 1024
-- rows with no NULL in it and a value in each row for every column is printed behind the lines on them, its rows in order and with empty
-- fields up to the fourth column.
pub trial_lem :
    (lib : Library) (db : lib.Db) (fields : List Bytes) (rows : List (List Bytes))
    → read_table lib db ≡ some (record { fields = fields; rows = map (map some) rows })
    → length fields ≤ row_size
    → All (λ texts. length texts ≡ length fields) rows
    → length rows ≤ line_size
    → trial lib db
      ≡ done (
          constructed
          ++ (results (linked lib db) (inserted lib db)
              ++ (codes "show table success\n" ++ (tabbed (padded fields) ++ all_tabbed rows))))
unfolding trial show_table
trial_lem lib db fields rows e f r n = rw (
  e,
  show_result_lem fields rows f r n,
  print_padded fields f,
  print_lines_lem rows [] (blank (line_size - length rows)) (fits (length fields) rows f r),
)
