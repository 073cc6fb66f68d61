-- ===== src/Memory.antt =====
-- Character arrays and C strings. An array is the list of its bytes, and a `char*` into it is the
-- rest of that list from the pointer on, so that a read past the end finds no byte and faults.
-- The functions of <string.h> and <stdio.h> that the sources call are modelled here.
pub mod Laws
use face_perception.Common.{
  ℕ, suc, ◌+◌, ◌-◌, Bool, true, false, ◌&&◌, Bytes, String, codes, List, [], ◌∷◌, ◌++◌, ltb, leb,
  ◌==◌, if◌then◌else◌, length, set, take, drop, replicate,
}
use face_perception.Outcome.{Outcome, done, fault, out_of_bounds, ◌>>=◌}

-- An array of `n` bytes after `memset(buf, '\0', n)`.
unfoldable pub zeros : ℕ → Bytes
zeros n = replicate n 0

-- A string literal, with its terminator.
abbrev pub literal : String → Bytes
literal s = codes s ++ 0 ∷ []

-- `*p`
abbrev pub deref : Bytes → Outcome ℕ
deref [] = fault out_of_bounds
deref (c ∷ _) = done c

-- `buf[i] = c`
unfoldable pub put : Bytes → ℕ → ℕ → Outcome Bytes
put buf i c = if ltb i (length buf) then done (set buf i c) else fault out_of_bounds

-- Bytes copied to `dst + i`.
unfoldable pub write : Bytes → ℕ → Bytes → Outcome Bytes
write dst i s =
    if leb (i + length s) (length dst)
    then done (take i dst ++ (s ++ drop (i + length s) dst))
    else fault out_of_bounds

-- The bytes before the terminator: what `string s = p` copies, and what `strlen` counts.
unfoldable pub c_text : Bytes → Outcome Bytes
c_text [] = fault out_of_bounds
c_text (c ∷ p) = let rest = c_text p in if c == 0 then done [] else (rest >>= λ t. done (c ∷ t))

unfoldable pub strlen : Bytes → Outcome ℕ
strlen p = do t ← c_text p; done (length t)

unfoldable pub strcpy : Bytes → Bytes → Outcome Bytes
strcpy dst src = do t ← c_text src; write dst 0 (t ++ 0 ∷ [])

unfoldable pub strcat : Bytes → Bytes → Outcome Bytes
strcat dst src = do d ← c_text dst; t ← c_text src; write dst (length d) (t ++ 0 ∷ [])

-- `sprintf(dst, "<prefix>%s", src)`
unfoldable pub sprintf_s : Bytes → Bytes → Bytes → Outcome Bytes
sprintf_s dst prefix src = do t ← c_text src; write dst 0 (prefix ++ (t ++ 0 ∷ []))

-- `strcmp(a, b) == 0`: the comparison stops at the first difference or at the terminator.
unfoldable pub str_eq : Bytes → Bytes → Outcome Bool
str_eq [] _ = fault out_of_bounds
str_eq (x ∷ a) [] = fault out_of_bounds
str_eq (x ∷ a) (y ∷ b) =
    let rest = str_eq a b in if x == y then (if x == 0 then done true else rest) else done false

-- `tolower` in the C locale.
unfoldable pub to_lower : ℕ → ℕ
to_lower c = if leb b'A' c && leb c b'Z' then c + 32 else c

-- `strcasecmp(a, b) == 0`
unfoldable pub str_case_eq : Bytes → Bytes → Outcome Bool
unfolding to_lower
str_case_eq [] _ = fault out_of_bounds
str_case_eq (x ∷ a) [] = fault out_of_bounds
str_case_eq (x ∷ a) (y ∷ b) =
    let rest = str_case_eq a b in
    if to_lower x == to_lower y then (if x == 0 then done true else rest) else done false
