-- ===== src/Database/Page.antt =====
-- cgi_bin/data_base_show.cpp: the page of the table.
pub mod Laws
use face_perception.Common.{ℕ, zero, suc, ◌+◌, Bool, Bytes, String, List, [], ◌∷◌, ◌++◌, codes}
use face_perception.Outcome.{Outcome, done, ◌>>=◌}
use face_perception.Database.Library.{Library, default_mysql, inter_link}
use face_perception.Database.Table.{at, Shown, new_shown, row_size, show_table}

-- A line of the page with a text between two tags.
abbrev pub cell : String → Bytes → String → Bytes
cell a t b = codes a ++ (t ++ codes b)

-- `for (…; i < …; ++i) cout << … << arr[i] << …`, with the rounds that are left.
unfoldable pub print_cells : String → String → ℕ → ℕ → List Bytes → Outcome Bytes
print_cells a b zero i arr = done []
print_cells a b (suc n) i arr = do
  t ← at arr i
  rest ← print_cells a b n (i + 1) arr
  done (cell a t b ++ rest)

unfoldable pub print_rows : ℕ → ℕ → List (List Bytes) → Outcome Bytes
unfolding print_cells
print_rows zero i show_data = done []
print_rows (suc n) i show_data = do
  row ← at show_data i
  cells ← print_cells "<td>" "</td>\n" row_size 0 row
  rest ← print_rows n (i + 1) show_data
  done (codes "<tr>\n" ++ (cells ++ (codes "</tr>\n" ++ rest)))

-- The page for what `show_table` has filled in.
unfoldable pub print_page : Shown → Outcome Bytes
unfolding print_rows
print_page s = do
  head ← print_cells "<th>" "</th>\n" row_size 0 s.name
  rows ← print_rows s.line 0 s.out_str
  done (
      codes
        "<html>\n<head>\n<p> wecome to linux data base show world </p>\n</head>\n<body>\n<table border=\"1\">\n<tr>\n"
      ++ (head ++ (codes "</th>\n" ++ (rows ++ codes "</table>\n</body>\n</html>\n"))))

module _ (lib : Library) where
  -- Whether the connection succeeds is not looked at.
  unfoldable pub show_base : lib.Db → Outcome Bytes
  show_base db =
      let linked = inter_link lib default_mysql db in
      let shown = show_table lib new_shown linked.1 in (shown.0 >>= print_page)
