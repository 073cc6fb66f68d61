-- ===== src/Database/Trial.antt =====
-- mysql/mysql.cpp: a program that inserts one row and prints the table.
pub mod Laws
use face_perception.Common.{
  ℕ, zero, suc, ◌+◌, Bool, Bytes, List, [], ◌∷◌, ◌++◌, codes, if◌then◌else◌,
}
use face_perception.Outcome.{Outcome, done, ◌>>=◌}
use face_perception.Database.Library.{Library, Mysql, new_mysql, inter_link}
use face_perception.Database.Insert.{Visit, insert}
use face_perception.Database.Table.{at, new_shown, row_size, show_table}

-- The row that is inserted.
abbrev pub row : Visit
row = record {
  name = codes "abcd";
  sub_number = codes "123456";
  begin_time = codes "12:23:45";
  end_time = codes "12:34:67";
  total_time = codes "23";
}

-- `for (…; i < ROW; ++i) cout << arr[i] << "\t"; cout << endl;`
unfoldable pub print_line : ℕ → ℕ → List Bytes → Outcome Bytes
print_line zero i arr = done (codes "\n")
print_line (suc n) i arr = do
  t ← at arr i
  rest ← print_line n (i + 1) arr
  done (t ++ (codes "\t" ++ rest))

unfoldable pub print_lines : ℕ → ℕ → List (List Bytes) → Outcome Bytes
unfolding print_line
print_lines zero i out_str = done []
print_lines (suc n) i out_str = do
  arr ← at out_str i
  line ← print_line row_size 0 arr
  rest ← print_lines n (i + 1) out_str
  done (line ++ rest)

-- The first line, in UTF-8: the constructor has succeeded.
abbrev pub constructed : Bytes
constructed =
    0xe6 ∷ 0x9e ∷ 0x84 ∷ 0xe9 ∷ 0x80 ∷ 0xa0 ∷ 0xe5 ∷ 0x87 ∷ 0xbd ∷ 0xe6 ∷ 0x95 ∷ 0xb0 ∷ 0xe6 ∷ 0x88
    ∷ 0x90 ∷ 0xe5 ∷ 0x8a ∷ 0x9f ∷ b'\n' ∷ []

-- The object that the program works with.
abbrev pub sql : Mysql
sql = new_mysql (codes "127.0.0.1") (codes "root") (codes "root") (codes "Mysql")

-- The lines on the connection and on the insertion. A connection that fails is only reported.
abbrev pub results : Bool → Bool → Bytes
results linked inserted =
    codes (if linked then "link success\n" else "link falied\n")
    ++ codes (if inserted then "insert success\n" else "insert falied\n")

-- What the program prints; `show_table` always returns true.
unfoldable pub trial : (lib : Library) → lib.Db → Outcome Bytes
unfolding print_lines
trial lib db = do
  let (linked, db1) = inter_link lib sql db
  let (inserted, sql', db2) = insert lib row sql db1
  shown ← (show_table lib new_shown db2).0
  header ← print_line row_size 0 shown.name
  lines ← print_lines shown.line 0 shown.out_str
  done (
      constructed
      ++ (results linked inserted ++ (codes "show table success\n" ++ (header ++ lines))))
