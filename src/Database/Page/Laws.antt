-- ===== src/Database/Page/Laws.antt =====
-- The page of a table that fits.
use face_perception.Common.{
  ◌-◌, ◌≤◌, ◌≡◌, refl, subst, Bytes, String, some, List, [], ◌∷◌, ◌++◌, append_assoc, arith, codes,
  map, All, length, length-append, drop, length-drop, replicate,
}
use face_perception.Outcome.{done, fault, out_of_bounds}
use face_perception.Database.Library.{Library, Result, default_mysql, inter_link}
use face_perception.Database.Table.{row_size, line_size, show_table}
use face_perception.Database.Table.Laws.{
  at-append, length-snoc, padded, blank, show_result-wide, show_result_lem, fits,
}
use face_perception.Database.Page.{print_cells, print_rows, print_page, show_base}

-- The texts of a row, each between the two tags.
abbrev pub cells : String → String → List Bytes → Bytes
cells a b [] = []
cells a b (t ∷ row) = codes a ++ (t ++ (codes b ++ cells a b row))

print_cells_lem :
    (a b : String) (row w : List Bytes)
    → print_cells a b (length row) (length w) (w ++ row) ≡ done (cells a b row)
unfolding print_cells
print_cells_lem a b [] w = refl
print_cells_lem a b (t ∷ row) w = rw (
  at-append w t row,
  length-snoc w t,
  ← append_assoc w (t ∷ []) row,
  print_cells_lem a b row (w ++ t ∷ []),
  append_assoc (codes a) (t ++ codes b) (cells a b row),
  append_assoc t (codes b) (cells a b row),
)

pub length-padded : (row : List Bytes) → length row ≤ row_size → length (padded row) ≡ row_size
length-padded row h = omega (
  arith,
  length-append row (drop (length row) (replicate row_size [])),
  length-drop (length row) (replicate {A = Bytes} row_size []),
)

-- The cells of an array of `row_size` strings.
print_row :
    (a b : String) (row : List Bytes)
    → length row ≤ row_size
    → print_cells a b row_size 0 (padded row) ≡ done (cells a b (padded row))
print_row a b row h =
    subst (λ n. print_cells a b n 0 (padded row) ≡ done (cells a b (padded row)))
      (length-padded row h) (print_cells_lem a b (padded row) [])

abbrev pub row_lines : List (List Bytes) → Bytes
row_lines [] = []
row_lines (row ∷ rows) =
    codes "<tr>\n" ++ (cells "<td>" "</td>\n" (padded row) ++ (codes "</tr>\n" ++ row_lines rows))

print_rows_lem :
    (rows w tail : List (List Bytes))
    → All (λ row. length row ≤ row_size) rows
    → print_rows (length rows) (length w) (w ++ (map padded rows ++ tail)) ≡ done (row_lines rows)
unfolding print_rows
print_rows_lem [] w tail h = refl
print_rows_lem (row ∷ rows) w tail h = rw (
  at-append w (padded row) (map padded rows ++ tail),
  print_row "<td>" "</td>\n" row h.0,
  length-snoc w (padded row),
  ← append_assoc w (padded row ∷ []) (map padded rows ++ tail),
  print_rows_lem rows (w ++ padded row ∷ []) tail h.1,
)

-- The page for the names of the fields and the rows.
abbrev pub table_page : List Bytes → List (List Bytes) → Bytes
table_page fields rows =
    codes
      "<html>\n<head>\n<p> wecome to linux data base show world </p>\n</head>\n<body>\n<table border=\"1\">\n<tr>\n"
    ++ (cells "<th>" "</th>\n" (padded fields)
        ++ (codes "</th>\n" ++ (row_lines rows ++ codes "</table>\n</body>\n</html>\n")))

-- If the query gives a table of at most four columns and 1024 rows with no NULL in it, in which every
-- row has a value for each column, the page shows the names of the columns and every row in order,
-- each text between its tags, with empty cells up to the fourth column.
pub show_base_lem :
    (lib : Library) (db : lib.Db) (fields : List Bytes) (rows : List (List Bytes))
    → lib.store_result
        (lib.query (codes "SELECT * FROM mytest") (inter_link lib default_mysql db).1).1
      ≡ some (record { fields = fields; rows = map (map some) rows })
    → length fields ≤ row_size
    → All (λ row. length row ≡ length fields) rows
    → length rows ≤ line_size
    → show_base lib db ≡ done (table_page fields rows)
unfolding show_base show_table print_page
show_base_lem lib db fields rows e f r n = rw (
  e,
  show_result_lem fields rows f r n,
  print_row "<th>" "</th>\n" fields f,
  print_rows_lem rows [] (blank (line_size - length rows)) (fits (length fields) rows f r),
)

-- For a table of five columns or more, such as one that takes the five values of `insert`, there is
-- no page: the names of the fields are written past their array.
pub show_base-wide :
    (lib : Library) (db : lib.Db) (res : Result)
    → lib.store_result
        (lib.query (codes "SELECT * FROM mytest") (inter_link lib default_mysql db).1).1
      ≡ some res
    → 5 ≤ length res.fields
    → show_base lib db ≡ fault out_of_bounds
unfolding show_base show_table
show_base-wide lib db res e wide = rw (e, show_result-wide res wide)
