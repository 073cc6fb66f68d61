-- ===== src/Http/Request/Laws.antt =====
-- The words of a request line, as `get_comm` copies them.
use face_perception.Common.{
  ℕ, zero, suc, ◌+◌, ◌-◌, ◌≤◌, ◌<◌, ◌≡◌, ◌≢◌, refl, sym, ap, ◌∙◌, ◌⊎◌, inl, inr, Bytes, [], ◌∷◌,
  ◌++◌, append_assoc, append-nil, Bool-cases, arith, ◌==◌, if◌then◌else◌, All, length, drop,
  replicate, length-append, length-drop, codes,
}
use face_perception.Outcome.{done, fault, out_of_bounds}
use face_perception.Memory.{deref}
use face_perception.Memory.Laws.{
  IsText, put-append, put_outside, strlen_lem, strcat_lem, strcat_outside,
}
use face_perception.Http.Line.Laws.{last_byte}
use face_perception.Http.Request.{skip_spaces, copy_word, get_comm, add_index}

-- A byte of a word.
abbrev pub IsWord : Bytes → Type 0
IsWord = All (λ c. (c ≢ 0) × (c ≢ b' '))

-- What ends a word.
abbrev pub IsGap : ℕ → Type 0
IsGap c = (c ≡ b' ') ⊎ (c ≡ 0)

pub word-IsText : (w : Bytes) → IsWord w → IsText w
word-IsText [] h = tt
word-IsText (c ∷ w) h = (h.0.0, word-IsText w h.1)

skip_spaces_lem :
    (k c : ℕ) (rest : Bytes)
    → c ≢ b' '
    → skip_spaces (replicate k b' ' ++ c ∷ rest) ≡ done (c ∷ rest)
unfolding skip_spaces
skip_spaces_lem zero c rest h = ground arith
skip_spaces_lem (suc k) c rest h = skip_spaces_lem k c rest h

-- `w` has been copied to `str` already.
copy_word_lem :
    (word w free : Bytes) (i gap : ℕ) (rest : Bytes)
    → i ≡ length w
    → IsWord word
    → IsGap gap
    → length word ≤ length free
    → copy_word (w ++ free) i (word ++ gap ∷ rest)
      ≡ done (i + length word, w ++ (word ++ drop (length word) free))
unfolding copy_word
copy_word_lem [] w free i gap rest e h stop fits = ground arith
copy_word_lem (c ∷ word) w [] i gap rest e h stop fits = absurd (omega arith)
copy_word_lem (c ∷ word) w (f ∷ free) i gap rest e h stop fits = ground (
  arith,
  put-append w f c free,
  append_assoc w (c ∷ []) free,
  append_assoc w (c ∷ []) (word ++ drop (length word) free),
  length-append w (c ∷ []),
  copy_word_lem word (w ++ c ∷ []) free (i + 1) gap rest,
)

copy_word_outside :
    (word w free : Bytes) (i : ℕ) (rest : Bytes)
    → i ≡ length w
    → IsWord word
    → length free < length word
    → copy_word (w ++ free) i (word ++ rest) ≡ fault out_of_bounds
unfolding copy_word
copy_word_outside [] w free i rest e h wide = elim wide [ ]
copy_word_outside (c ∷ word) w [] i rest e h wide =
    ground (arith, put_outside (w ++ []) i c, append-nil w)
copy_word_outside (c ∷ word) w (f ∷ free) i rest e h wide = ground (
  arith,
  put-append w f c free,
  append_assoc w (c ∷ []) free,
  length-append w (c ∷ []),
  copy_word_outside word (w ++ c ∷ []) free (i + 1) rest,
)

-- Behind any number of spaces the next word is copied to the start of `str`, and its length is
-- returned, if `str` is as long; a longer word is written past the end of `str`.
pub get_comm_lem :
    (k c : ℕ) (word : Bytes) (gap : ℕ) (rest str : Bytes)
    → IsWord (c ∷ word)
    → IsGap gap
    → (length (c ∷ word) ≤ length str
        → get_comm (replicate k b' ' ++ (c ∷ word) ++ gap ∷ rest) str
          ≡ done (length (c ∷ word), (c ∷ word) ++ drop (length (c ∷ word)) str))
      × (length str < length (c ∷ word)
          → get_comm (replicate k b' ' ++ (c ∷ word) ++ gap ∷ rest) str ≡ fault out_of_bounds)
unfolding get_comm
get_comm_lem k c word gap rest str h stop =
    let flat = append_assoc (replicate k b' ') (c ∷ word) (gap ∷ rest) in
    (
      λ fits.
          rw (flat, skip_spaces_lem k c (word ++ gap ∷ rest) h.0.1)
            (copy_word_lem (c ∷ word) [] str 0 gap rest refl h stop fits
              ∙ ap (λ n. done (n, (c ∷ word) ++ drop (length (c ∷ word)) str))
                  {x = 0 + length (c ∷ word)} {y = length (c ∷ word)} (omega arith)),
      λ wide.
          rw (flat, skip_spaces_lem k c (word ++ gap ∷ rest) h.0.1)
            (copy_word_outside (c ∷ word) [] str 0 (gap ∷ rest) refl h wide),
    )

-- The last byte of a text that is not empty.
deref_last : (c : ℕ) (t s : Bytes) → deref (drop (length t) ((c ∷ t) ++ s)) ≡ done (last_byte c t)
deref_last c [] s = refl
deref_last c (d ∷ t) s = deref_last d t s

-- `path`, with index.html added behind a slash.
abbrev pub index_path : Bytes → Bytes
index_path t = if last_byte 0 t == b'/' then t ++ codes "index.html" else t

pred_suc : (n : ℕ) → suc n - 1 ≡ n
pred_suc n = omega arith

index-IsText : IsText (codes "index.html")
index-IsText = omega arith

pub add_index_lem :
    (c : ℕ) (t r : Bytes)
    → IsText (c ∷ t)
    → 10 ≤ length r
    → (s : Bytes) × (add_index ((c ∷ t) ++ 0 ∷ r) ≡ done (index_path (c ∷ t) ++ 0 ∷ s))
      × (length (index_path (c ∷ t)) + length s ≡ length (c ∷ t) + length r)
unfolding add_index
add_index_lem c t r h fits =
    let ends : deref (drop (length (c ∷ t) - 1) ((c ∷ t) ++ 0 ∷ r)) ≡ done (last_byte c t) =
      rw (pred_suc (length t)) (deref_last c t (0 ∷ r)) in
    elim (Bool-cases (last_byte c t == b'/')) [
      | inl slash ↦ (
        drop 10 r,
        rw
            (
              strlen_lem (c ∷ t) r h,
              ends,
              slash,
              strcat_lem (c ∷ t) r (codes "index.html") [] h index-IsText fits,
            )
            (ap done (ap (◌∷◌ c) (sym (append_assoc t (codes "index.html") (0 ∷ drop 10 r))))),
        rw slash (omega (arith, length-append t (codes "index.html"), length-drop 10 r)),
      )
      | inr other ↦ (r, rw (strlen_lem (c ∷ t) r h, ends, other), rw other)
    ]

-- Without room for index.html the array overflows.
pub add_index_outside :
    (c : ℕ) (t r : Bytes)
    → IsText (c ∷ t)
    → last_byte c t ≡ b'/'
    → length r < 10
    → add_index ((c ∷ t) ++ 0 ∷ r) ≡ fault out_of_bounds
unfolding add_index
add_index_outside c t r h slash wide = rw (
  strlen_lem (c ∷ t) r h,
  pred_suc (length t),
  deref_last c t (0 ∷ r),
  slash,
  strcat_outside (c ∷ t) r (codes "index.html") [] h index-IsText wide,
)
