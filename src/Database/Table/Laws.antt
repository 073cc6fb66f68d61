-- ===== src/Database/Table/Laws.antt =====
-- Which tables `show_table` copies.
use face_perception.Common.{
  ℕ, suc, ◌+◌, ◌-◌, ◌≤◌, ◌<◌, ◌≡◌, refl, ap, subst, Bytes, some, List, [], ◌∷◌, ◌++◌, append_assoc,
  arith, ltb-true, map, All, length, length-append, length-set, set, drop, replicate,
}
use face_perception.Outcome.{done, fault, out_of_bounds, ◌>>=◌}
use face_perception.Database.Library.{Result}
use face_perception.Database.Table.{
  row_size, line_size, assign, at, fetch_fields, copy_row, copy_rows, new_shown, show_result,
}

-- More fields than the array has room for.
fetch_fields-outside :
    (fields : List Bytes) (i : ℕ) (name : List Bytes)
    → i ≤ length name
    → length name < i + length fields
    → fetch_fields fields i name ≡ fault out_of_bounds
unfolding fetch_fields assign
fetch_fields-outside [] i name h wide = absurd (omega arith)
fetch_fields-outside (f ∷ fields) i name h wide =
    ground (arith, length-set name i f, fetch_fields-outside fields (i + 1) (set name i f))

pub show_result-wide :
    (res : Result) → 5 ≤ length res.fields → show_result (some res) new_shown ≡ fault out_of_bounds
unfolding show_result
show_result-wide res wide =
    rw (fetch_fields-outside res.fields 0 (replicate 4 []) (omega arith) (omega arith))

module _ {ℓ} {A : Type ℓ} where
  set_at : (w : List A) (x v : A) (r : List A) → set (w ++ x ∷ r) (length w) v ≡ w ++ v ∷ r
  set_at [] x v r = refl
  set_at (y ∷ w) x v r = ap (◌∷◌ y) (set_at w x v r)

  assign-append :
      (w : List A) (x v : A) (r : List A) → assign (w ++ x ∷ r) (length w) v ≡ done (w ++ v ∷ r)
  unfolding assign
  assign-append w x v r = rw (
    ltb-true (length w) (length (w ++ x ∷ r)) (omega (arith, length-append w (x ∷ r))),
    set_at w x v r,
  )

  pub at-append : (w : List A) (x : A) (r : List A) → at (w ++ x ∷ r) (length w) ≡ done x
  unfolding at
  at-append [] x r = refl
  at-append (y ∷ w) x r = at-append w x r

  pub length-snoc : (w : List A) (x : A) → length w + 1 ≡ length (w ++ x ∷ [])
  length-snoc w x = omega (arith, length-append w (x ∷ []))

fetch_fields_lem :
    (fields w free : List Bytes)
    → length fields ≤ length free
    → fetch_fields fields (length w) (w ++ free) ≡ done (w ++ (fields ++ drop (length fields) free))
unfolding fetch_fields
fetch_fields_lem [] w free h = refl
fetch_fields_lem (f ∷ fields) w [] h = absurd (omega arith)
fetch_fields_lem (f ∷ fields) w (x ∷ free) h =
    rw
      (
        assign-append w x f free,
        length-snoc w f,
        ← append_assoc w (f ∷ []) free,
        ← append_assoc w (f ∷ []) (fields ++ drop (length fields) free),
      )
      (fetch_fields_lem fields (w ++ f ∷ []) free (omega arith))

copy_row_lem :
    (row w free : List Bytes)
    → length row ≤ length free
    → copy_row (length row) (map some row) (length w) (w ++ free)
      ≡ done (w ++ (row ++ drop (length row) free))
unfolding copy_row
copy_row_lem [] w free h = refl
copy_row_lem (f ∷ row) w [] h = absurd (omega arith)
copy_row_lem (f ∷ row) w (x ∷ free) h =
    rw
      (
        assign-append w x f free,
        length-snoc w f,
        ← append_assoc w (f ∷ []) free,
        ← append_assoc w (f ∷ []) (row ++ drop (length row) free),
      )
      (copy_row_lem row (w ++ f ∷ []) free (omega arith))

-- A row of the arrays: empty strings stand behind the fields.
abbrev pub padded : List Bytes → List Bytes
padded row = row ++ drop (length row) (replicate row_size [])

abbrev pub blank : ℕ → List (List Bytes)
blank n = replicate n (replicate row_size [])

copied :
    (k : ℕ) (row free : List Bytes)
    → length row ≡ k
    → k ≤ length free
    → copy_row k (map some row) 0 free ≡ done (row ++ drop (length row) free)
copied k row free e h =
    subst (λ n. copy_row n (map some row) 0 free ≡ done (row ++ drop (length row) free)) e
      (copy_row_lem row [] free (omega arith))

copy_rows_lem :
    (k : ℕ) (rows w : List (List Bytes)) (n : ℕ)
    → k ≤ row_size
    → All (λ row. length row ≡ k) rows
    → copy_rows k (map (map some) rows) (length w) (w ++ blank (length rows + n))
      ≡ done (w ++ (map padded rows ++ blank n))
unfolding copy_rows
copy_rows_lem k [] w n b h = let z : 0 + n ≡ n = omega arith in rw z
copy_rows_lem k (row ∷ rows) w n b h =
    let z : suc (length rows) + n ≡ suc (length rows + n) = omega arith in
    let more = blank (length rows + n) in
    rw
      (
        z,
        at-append w (replicate row_size []) more,
        copied k row (replicate row_size []) h.0 b,
        assign-append w (replicate row_size []) (padded row) more,
        length-snoc w (padded row),
        ← append_assoc w (padded row ∷ []) more,
        ← append_assoc w (padded row ∷ []) (map padded rows ++ blank n),
      )
      (copy_rows_lem k rows (w ++ padded row ∷ []) n b h.1)

length-map : (rows : List (List Bytes)) → length (map (map some) rows) ≡ length rows
length-map [] = refl
length-map (r ∷ rows) = ap suc (length-map rows)

pub show_result_lem :
    (fields : List Bytes) (rows : List (List Bytes))
    → length fields ≤ row_size
    → All (λ row. length row ≡ length fields) rows
    → length rows ≤ line_size
    → show_result (some (record { fields = fields; rows = map (map some) rows })) new_shown
      ≡ done (record {
        name = padded fields;
        out_str = map padded rows ++ blank (line_size - length rows);
        line = length rows;
      })
unfolding show_result
show_result_lem fields rows f r n =
    let more = line_size - length rows in
    let z : length rows + more ≡ line_size = omega arith in
    let rows_done =
      subst
        (λ m.
          copy_rows (length fields) (map (map some) rows) 0 (blank m)
          ≡ done (map padded rows ++ blank more))
        z (copy_rows_lem (length fields) rows [] more f r) in
    rw (fetch_fields_lem fields [] (replicate row_size []) f, length-map rows)
      (ap
        (λ o. o >>= λ out_str.
          done (record { name = padded fields; out_str = out_str; line = length rows }))
        rows_done)

pub fits :
    (k : ℕ) (rows : List (List Bytes))
    → k ≤ row_size
    → All (λ row. length row ≡ k) rows
    → All (λ row. length row ≤ row_size) rows
fits k [] h r = tt
fits k (row ∷ rows) h r = (omega (arith, r.0), fits k rows h r.1)
