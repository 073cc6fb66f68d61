-- ===== src/Database/Lifetime.antt =====
-- mysql/mysql.h: the pointers of the class `Mysql`, and what its destructor releases.
use face_perception.Common.{ℕ, ◌≡◌, refl, Option, none, some, List, [], ◌∷◌, ◌++◌}

-- `mysql_base`, which `mysql_init` gave, and `res`. `none` is a null pointer.
pub record Handles : Type 0 where
  pub mysql_base : Option ℕ
  pub res : Option ℕ

-- The calls that release something.
pub data Release : Type 0 where
  mysql_close : Option ℕ → Release
  free : ℕ → Release

-- The constructor, with what `mysql_init(NULL)` returns.
abbrev new_handles : Option ℕ → Handles
new_handles base = record { mysql_base = base; res = none }

-- `res = mysql_store_result(mysql_base)` of `show_table`; the result that `res` pointed to before is
-- not released.
abbrev keep_result : Option ℕ → Handles → Handles
keep_result result h = record h { res = result }

abbrev keep_results : List (Option ℕ) → Handles → Handles
keep_results [] h = h
keep_results (result ∷ results) h = keep_results results (keep_result result h)

unfoldable close_connect : Handles → List Release
close_connect h = mysql_close h.mysql_base ∷ []

abbrev free_result : Option ℕ → List Release
free_result none = []
free_result (some r) = free r ∷ []

-- `~Mysql`
unfoldable destroy : Handles → Handles × List Release
unfolding close_connect
destroy h = (record h { res = none }, close_connect h ++ free_result h.res)

keep_results-mysql_base :
    (results : List (Option ℕ)) (h : Handles) → (keep_results results h).mysql_base ≡ h.mysql_base
keep_results-mysql_base [] h = refl
keep_results-mysql_base (r ∷ results) h = keep_results-mysql_base results (keep_result r h)

keep_results-last :
    (results : List (Option ℕ)) (r : Option ℕ) (h : Handles)
    → (keep_results (results ++ r ∷ []) h).res ≡ r
keep_results-last [] r h = refl
keep_results-last (s ∷ results) r h = keep_results-last results r (keep_result s h)

-- Of the results that an object's calls of `show_table` have kept, the destructor frees the last
-- and no other, after it has closed the connection, and the object's own pointer is null then.
destroy-last :
    (base : Option ℕ) (results : List (Option ℕ)) (r : ℕ)
    → let h = keep_results (results ++ some r ∷ []) (new_handles base) in
      destroy h ≡ (record { mysql_base = base; res = none }, mysql_close base ∷ free r ∷ [])
unfolding destroy close_connect
destroy-last base results r = rw (
  keep_results-mysql_base (results ++ some r ∷ []) (new_handles base),
  keep_results-last results (some r) (new_handles base),
)
