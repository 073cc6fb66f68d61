-- ===== src/Attendance/Query/Laws.antt =====
-- What `get_string` reads, and the queries on which it stops the server.
use face_perception.Common.{
  All-append, subst, ltb, ℕ, zero, suc, ◌+◌, ◌≤◌, ◌<◌, ◌≡◌, ◌≢◌, refl, Bytes, [], ◌∷◌, ◌++◌, arith,
  ◌==◌, if◌then◌else◌, All, length, drop, length-append, ltb-true, drop-cons, length-drop,
  length-replicate, append_assoc, ◌⊎◌, inl, inr,
}
use face_perception.Outcome.{
  >>=-eq-done, done-injective, done, fault, out_of_bounds, assertion_failed, assert,
}
use face_perception.Memory.Laws.{
  IsText, c_text-IsText, put-append, write_outside, c_text_lem, length-zeros,
}
use face_perception.Memory.{zeros, put, write, c_text}
use face_perception.Attendance.Query.{pointer_size, new_array, skip_key, copy_value, get_string}

-- Text with neither a terminator nor the byte `c`.
abbrev pub IsTextWithout : ℕ → Bytes → Type 0
IsTextWithout c = All (λ d. (d ≢ 0) × (d ≢ c))

pub skip_key_lem :
    (key rest : Bytes) → IsTextWithout b'=' key → skip_key (key ++ b'=' ∷ rest) ≡ done rest
unfolding skip_key
skip_key_lem [] rest h = refl
skip_key_lem (k ∷ []) rest h = ground arith
skip_key_lem (k ∷ l ∷ key) rest h = ground (arith, skip_key_lem (l ∷ key) rest h.1)

-- With no `=` in it the text is skipped, and the pointer stops at its terminator.
pub skip_key_without :
    (k : ℕ) (key rest : Bytes)
    → IsTextWithout b'=' (k ∷ key)
    → skip_key (k ∷ (key ++ 0 ∷ rest)) ≡ done (0 ∷ rest)
unfolding skip_key
skip_key_without k [] rest h = ground arith
skip_key_without k (l ∷ key) rest h = ground (arith, skip_key_without l key rest h.1)

-- `w` has been copied to `tmp` already.
pub copy_value_lem :
    (value w free : Bytes) (i c : ℕ) (rest : Bytes)
    → i ≡ length w
    → IsTextWithout b'&' value
    → (c ≡ b'&') ⊎ (c ≡ 0)
    → length value ≤ length free
    → copy_value (w ++ free) i (value ++ c ∷ rest)
      ≡ done (w ++ (value ++ drop (length value) free), i + length value, c ∷ rest)
unfolding copy_value
copy_value_lem [] w free i c rest e h stop fits = ground arith
copy_value_lem (v ∷ value) w [] i c rest e h stop fits = absurd (omega arith)
copy_value_lem (v ∷ value) w (f ∷ free) i c rest e h stop fits = ground (
  arith,
  put-append w f v free,
  append_assoc w (v ∷ []) free,
  append_assoc w (v ∷ []) (value ++ drop (length value) free),
  length-append w (v ∷ []),
  copy_value_lem value (w ++ v ∷ []) free (i + 1) c rest,
)

zero_add : (n : ℕ) → 0 + n ≡ n
zero_add n = omega arith

length-new_array : (n : ℕ) → length (new_array n) ≡ n
unfolding new_array
length-new_array n = length-replicate n 0xcd

-- The array after `memset(tmp, '\0', sizeof(tmp))`.
cleared : ℕ → Bytes
cleared n = zeros pointer_size ++ drop pointer_size (new_array (n + 1))

length-cleared : (n : ℕ) → 3 ≤ n → length (cleared n) ≡ n + 1
unfolding cleared
length-cleared n h = omega (
  arith,
  length-append (zeros pointer_size) (drop pointer_size (new_array (n + 1))),
  length-zeros pointer_size,
  length-drop pointer_size (new_array (n + 1)),
  length-new_array (n + 1),
)

write-cleared :
    (n : ℕ) → 3 ≤ n → write (new_array (n + 1)) 0 (zeros pointer_size) ≡ done (cleared n)
unfolding cleared write
write-cleared n h = ground (arith, length-zeros pointer_size, length-new_array (n + 1))

-- The name is stored, and a terminator put behind it.
put_name :
    (name free : Bytes)
    → length name < length free
    → put (name ++ drop (length name) free) (length name) 0
      ≡ done (name ++ 0 ∷ drop (suc (length name)) free)
put_name name free h =
    let (x, e) = drop-cons (length name) free h in
    rw e (put-append name x 0 (drop (suc (length name)) free))

pub without-IsText : (c : ℕ) (t : Bytes) → IsTextWithout c t → IsText t
without-IsText c [] h = tt
without-IsText c (d ∷ t) h = (h.0.0, without-IsText c t h.1)

-- The steps of `get_string` on a name that ends in an ampersand or at the end of the query.
get_string_steps :
    (query : Bytes) (n : ℕ) (name : Bytes) (c : ℕ) (rest number id : Bytes)
    → 3 ≤ n
    → length name ≤ n
    → skip_key query ≡ done (name ++ c ∷ rest)
    → IsTextWithout b'&' name
    → (c ≡ b'&') ⊎ (c ≡ 0)
    → skip_key (c ∷ rest) ≡ done number
    → c_text number ≡ done id
    → get_string query n ≡ done (name, id)
unfolding get_string
get_string_steps query n name c rest number id long fits first hn stop second third = rw (
  ltb-true 0 n (omega arith),
  write-cleared n long,
  first,
  copy_value_lem name [] (cleared n) 0 c rest refl hn stop (omega (arith, length-cleared n long)),
  zero_add (length name),
  put_name name (cleared n) (omega (arith, length-cleared n long)),
  c_text_lem name (drop (suc (length name)) (cleared n)) (without-IsText b'&' name hn),
  second,
  third,
)

-- The text of a query with two fields.
abbrev pub query_text : Bytes → Bytes → Bytes → Bytes → Bytes
query_text key name key' id = key ++ b'=' ∷ (name ++ b'&' ∷ (key' ++ b'=' ∷ id))

length-query_text :
    (key name key' id : Bytes)
    → length (query_text key name key' id) ≡ length key + length name + length key' + length id + 3
length-query_text key name key' id = omega (
  arith,
  length-append key (b'=' ∷ (name ++ b'&' ∷ (key' ++ b'=' ∷ id))),
  length-append name (b'&' ∷ (key' ++ b'=' ∷ id)),
  length-append key' (b'=' ∷ id),
)

pub query_text-IsText :
    (key name key' id : Bytes)
    → IsTextWithout b'=' key
    → IsTextWithout b'&' name
    → IsTextWithout b'=' key'
    → IsText id
    → IsText (query_text key name key' id)
query_text-IsText key name key' id hk hn hk' hi =
    All-append (λ c. c ≢ 0) key (b'=' ∷ (name ++ b'&' ∷ (key' ++ b'=' ∷ id)))
      (without-IsText b'=' key hk)
      (
        omega arith,
        All-append (λ c. c ≢ 0) name (b'&' ∷ (key' ++ b'=' ∷ id)) (without-IsText b'&' name hn)
            (
              omega arith,
              All-append (λ c. c ≢ 0) key' (b'=' ∷ id) (without-IsText b'=' key' hk')
                  (omega arith, hi),
            ),
      )

-- A query of two fields gives the values of the first and of the second, whatever the keys are
-- called, as long as no key holds an `=` and the name holds no `&`; `rest` is what the array holds
-- behind the query.
pub get_string-query_text :
    (key name key' id rest : Bytes)
    → IsTextWithout b'=' key
    → IsTextWithout b'&' name
    → IsTextWithout b'=' key'
    → IsText id
    → get_string (query_text key name key' id ++ 0 ∷ rest) (length (query_text key name key' id))
      ≡ done (name, id)
get_string-query_text key name key' id rest hk hn hk' hi =
    get_string_steps _ _ name b'&' (key' ++ b'=' ∷ (id ++ 0 ∷ rest)) (id ++ 0 ∷ rest) id
      (omega (arith, length-query_text key name key' id))
      (omega (arith, length-query_text key name key' id))
      (simp append_assoc (skip_key_lem key (name ++ b'&' ∷ (key' ++ b'=' ∷ (id ++ 0 ∷ rest))) hk))
      hn (inl refl)
      (skip_key_lem (b'&' ∷ key') (id ++ 0 ∷ rest) ((ground arith, ground arith), hk'))
      (c_text_lem id rest hi)

-- A query with no `=`, such as the path of a POST request, gives an empty name and number.
pub get_string-without :
    (c : ℕ) (text rest : Bytes)
    → IsTextWithout b'=' (c ∷ text)
    → 2 ≤ length text
    → get_string (c ∷ (text ++ 0 ∷ 0 ∷ rest)) (length (c ∷ text)) ≡ done ([], [])
unfolding skip_key c_text
get_string-without c text rest h long =
    get_string_steps _ _ [] 0 (0 ∷ rest) (0 ∷ rest) [] (omega arith) (omega arith)
      (skip_key_without c text (0 ∷ rest) h) tt (inr refl) refl refl

-- On an empty query the assertion fails; on one of one or two bytes `memset` writes past the end
-- of `tmp`.
pub get_string_short :
    (query : Bytes) (n : ℕ)
    → n < 3
    → get_string query n ≡ fault (if n == 0 then assertion_failed else out_of_bounds)
unfolding get_string
get_string_short query zero short = refl
get_string_short query (suc n) short =
    rw
      (
        ltb-true 0 (suc n) (omega arith),
        write_outside (new_array (suc n + 1)) 0 (zeros pointer_size)
            (omega (arith, length-zeros pointer_size, length-new_array (suc n + 1))),
      )
      (ground arith)

-- What `get_string` returns are C strings.
pub get_string-IsText :
    (query : Bytes) (n : ℕ) {u : Bytes × Bytes}
    → get_string query n ≡ done u
    → IsText u.0 × IsText u.1
unfolding get_string
get_string-IsText query n {u} h =
    let (_, _, h1) = >>=-eq-done (assert (ltb 0 n)) _ h in
    let (tmp, _, h2) = >>=-eq-done (write (new_array (n + 1)) 0 (zeros pointer_size)) _ h1 in
    let (value, _, h3) = >>=-eq-done (skip_key query) _ h2 in
    let (copied, _, h4) = >>=-eq-done (copy_value tmp 0 value) _ h3 in
    let (tmp', _, h5) = >>=-eq-done (put copied.0 copied.1 0) _ h4 in
    let (name, e, h6) = >>=-eq-done (c_text tmp') _ h5 in
    let (number, _, h7) = >>=-eq-done (skip_key copied.2) _ h6 in
    let (id, e', h8) = >>=-eq-done (c_text number) _ h7 in
    subst (λ (x : Bytes × Bytes). IsText x.0 × IsText x.1) (done-injective h8)
      (c_text-IsText tmp' e, c_text-IsText number e')
