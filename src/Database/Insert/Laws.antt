-- ===== src/Database/Insert/Laws.antt =====
-- What the text of `insert` holds: the fields of a visit, unless one of them holds a quote.
use face_perception.Common.{
  ℕ, ◌≡◌, ◌≢◌, refl, Bytes, List, [], ◌∷◌, ◌++◌, append_assoc, arith, codes, ==_ne, ◌==◌,
  if◌then◌else◌, All,
}
use face_perception.Database.Insert.{Visit, insert_text, cut_at_zero, insert_query}

-- Where a reader of a query stands: outside its literals, in one, behind a backslash in one, or
-- behind a quote that ends a literal unless a second quote follows.
pub data Place : Type 0 where
  outside within escaped closing : Place

abbrev pub next_place : Place → ℕ → Place
next_place outside c = if c == b'\'' then within else outside
next_place within c = if c == b'\'' then closing else if c == b'\\' then escaped else within
next_place escaped c = within
next_place closing c = if c == b'\'' then within else outside

-- What a byte behind a backslash stands for.
abbrev pub escape : ℕ → Bytes
escape c =
    if c == b'0'
    then 0 ∷ []
    else if c == b'b'
    then 8 ∷ []
    else if c == b'n'
    then 10 ∷ []
    else if c == b'r'
    then 13 ∷ []
    else if c == b't'
    then 9 ∷ []
    else if c == b'Z'
    then 26 ∷ []
    else if c == b'%'
    then b'\\' ∷ c ∷ []
    else if c == b'_'
    then b'\\' ∷ c ∷ []
    else c ∷ []

abbrev pub prepend : Bytes → List Bytes → List Bytes
prepend w [] = w ∷ []
prepend w (p ∷ ps) = (w ++ p) ∷ ps

-- What a byte adds to the literals behind it.
abbrev pub emit : Place → ℕ → List Bytes → List Bytes
emit outside c ls = ls
emit within c ls = if c == b'\'' then ls else if c == b'\\' then ls else prepend (c ∷ []) ls
emit escaped c ls = prepend (escape c) ls
emit closing c ls = if c == b'\'' then prepend (c ∷ []) ls else [] ∷ ls

-- The end of a query.
abbrev pub rest_at_end : Place → List Bytes
rest_at_end outside = []
rest_at_end p = [] ∷ []

-- The literals from a place on, the rest of the one that the reader stands in first.
unfoldable pub literals_from : Place → Bytes → List Bytes
literals_from p [] = rest_at_end p
literals_from p (c ∷ s) = emit p c (literals_from (next_place p c) s)

-- The string literals in single quotes of a query, as MySQL reads them unless it is told to take
-- backslashes as they stand.
abbrev pub literals : Bytes → List Bytes
literals = literals_from outside

-- Text without a quote, a backslash or a zero byte.
abbrev pub IsPlain : Bytes → Type 0
IsPlain = All (λ c. (c ≢ b'\'') × (c ≢ b'\\') × (c ≢ 0))

literals_from-plain :
    (t s : Bytes)
    → IsPlain t
    → literals_from within (t ++ (codes "','" ++ s)) ≡ t ∷ literals_from within s
unfolding literals_from
literals_from-plain [] s h = refl
literals_from-plain (c ∷ t) s h =
    rw (==_ne c b'\'' h.0.0, ==_ne c b'\\' h.0.1, literals_from-plain t s h.1)

literals_from-last : (t : Bytes) → IsPlain t → literals_from within (t ++ codes "');") ≡ t ∷ []
unfolding literals_from
literals_from-last [] h = refl
literals_from-last (c ∷ t) h =
    rw (==_ne c b'\'' h.0.0, ==_ne c b'\\' h.0.1, literals_from-last t h.1)

literals_from-first :
    (s : Bytes)
    → literals_from outside (codes "INSERT INTO mytest values('" ++ s) ≡ literals_from within s
unfolding literals_from
literals_from-first s = refl

cut_at_zero-append : (t s : Bytes) → All (λ c. c ≢ 0) t → cut_at_zero (t ++ s) ≡ t ++ cut_at_zero s
cut_at_zero-append [] s h = refl
cut_at_zero-append (c ∷ t) s h = rw (==_ne c 0 h.0, cut_at_zero-append t s h.1)

IsPlain-text : (t : Bytes) → IsPlain t → All (λ c. c ≢ 0) t
IsPlain-text [] h = tt
IsPlain-text (c ∷ t) h = (h.0.2, IsPlain-text t h.1)

cut_at_zero-plain : (t s : Bytes) → IsPlain t → cut_at_zero (t ++ s) ≡ t ++ cut_at_zero s
cut_at_zero-plain t s h = cut_at_zero-append t s (IsPlain-text t h)

-- The query that `insert` passes on has the five fields as its literals, if no field holds a quote, a
-- backslash or a zero byte.
pub insert_query_roundtrip :
    (v : Visit)
    → IsPlain v.name
    → IsPlain v.sub_number
    → IsPlain v.begin_time
    → IsPlain v.end_time
    → IsPlain v.total_time
    → literals (insert_query v)
      ≡ v.name ∷ v.sub_number ∷ v.begin_time ∷ v.end_time ∷ v.total_time ∷ []
unfolding insert_text insert_query
insert_query_roundtrip v a b c d e = rw (
  cut_at_zero-append (codes "INSERT INTO mytest values('") _ (omega arith),
  cut_at_zero-plain v.name _ a,
  cut_at_zero-append (codes "','") _ (omega arith),
  cut_at_zero-plain v.sub_number _ b,
  cut_at_zero-append (codes "','") _ (omega arith),
  cut_at_zero-plain v.begin_time _ c,
  cut_at_zero-append (codes "','") _ (omega arith),
  cut_at_zero-plain v.end_time _ d,
  cut_at_zero-append (codes "','") _ (omega arith),
  cut_at_zero-plain v.total_time _ e,
  literals_from-first _,
  literals_from-plain v.name _ a,
  literals_from-plain v.sub_number _ b,
  literals_from-plain v.begin_time _ c,
  literals_from-plain v.end_time _ d,
  literals_from-last v.total_time e,
)

-- A name that holds a quote, a comma and a quote moves the fields: the query is the one for another
-- name and another number.
pub insert_text_moved :
    (v : Visit) (a b c : Bytes)
    → insert_text (record v { name = a ++ (codes "','" ++ b); sub_number = c })
      ≡ insert_text (record v { name = a; sub_number = b ++ (codes "','" ++ c) })
unfolding insert_text
insert_text_moved v a b c = simp append_assoc
