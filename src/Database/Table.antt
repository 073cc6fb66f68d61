-- ===== src/Database/Table.antt =====
-- mysql/mysql.h: `show_table`, which copies the table to arrays of its caller.
pub mod Laws
use face_perception.Common.{
  ℕ, zero, suc, ◌+◌, Bool, Bytes, Option, some, none, List, [], ◌∷◌, codes, ltb, if◌then◌else◌,
  length, set, drop, replicate,
}
use face_perception.Outcome.{Outcome, done, fault, out_of_bounds, null_pointer, ◌>>=◌}
use face_perception.Database.Library.{Library, Result}

-- ROW, and the number of rows that `out_str` has room for.
abbrev pub row_size : ℕ
row_size = 4

abbrev pub line_size : ℕ
line_size = 1024

-- `arr[i] = v` in an array of any type.
unfoldable pub assign {ℓ} : {A : Type ℓ} → List A → ℕ → A → Outcome (List A)
assign arr i v = if ltb i (length arr) then done (set arr i v) else fault out_of_bounds

-- `arr[i]`
unfoldable pub at {ℓ} : {A : Type ℓ} → List A → ℕ → Outcome A
at [] i = fault out_of_bounds
at (x ∷ arr) zero = done x
at (x ∷ arr) (suc i) = at arr i

-- `while (fd = mysql_fetch_field(res)) name[i++] = fd->name;`
unfoldable pub fetch_fields : List Bytes → ℕ → List Bytes → Outcome (List Bytes)
fetch_fields [] i name = done name
fetch_fields (f ∷ fields) i name = do name' ← assign name i f; fetch_fields fields (i + 1) name'

-- A string is made of a value; NULL is no text.
abbrev pub text_of : Option Bytes → Outcome Bytes
text_of none = fault null_pointer
text_of (some t) = done t

-- `for (…; start < List; ++start) out_str[index][start] = row[start];` for the fields and the values
-- of the row that are left.
unfoldable pub copy_row : ℕ → List (Option Bytes) → ℕ → List Bytes → Outcome (List Bytes)
copy_row zero row start out = done out
copy_row (suc n) [] start out = fault out_of_bounds
copy_row (suc n) (v ∷ row) start out = do
  text ← text_of v
  out' ← assign out start text
  copy_row n row (start + 1) out'

-- The loop over the rows.
unfoldable pub copy_rows :
    ℕ → List (List (Option Bytes)) → ℕ → List (List Bytes) → Outcome (List (List Bytes))
unfolding copy_row
copy_rows n [] index out_str = done out_str
copy_rows n (row ∷ rows) index out_str = do
  out ← at out_str index
  out' ← copy_row n row 0 out
  out_str' ← assign out_str index out'
  copy_rows n rows (index + 1) out_str'

-- The caller's arrays and its `line`.
pub record Shown : Type 0 where
  pub name : List Bytes
  pub out_str : List (List Bytes)
  pub line : ℕ

abbrev pub new_shown : Shown
new_shown = record {
  name = replicate row_size [];
  out_str = replicate line_size (replicate row_size []);
  line = 0;
}

-- What is done with the result of the query; without one `mysql_num_rows` is given a null pointer.
unfoldable pub show_result : Option Result → Shown → Outcome Shown
show_result none s = fault null_pointer
show_result (some res) s = do
  name ← fetch_fields res.fields 0 s.name
  out_str ← copy_rows (length res.fields) res.rows 0 s.out_str
  done (record { name = name; out_str = out_str; line = length res.rows })

module _ (lib : Library) where
  -- Whether the query succeeds is not looked at.
  unfoldable pub show_table : Shown → lib.Db → Outcome Shown × lib.Db
  show_table s db =
      let (success, db') = lib.query (codes "SELECT * FROM mytest") db in
      (show_result (lib.store_result db') s, db')
