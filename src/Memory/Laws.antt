-- ===== src/Memory/Laws.antt =====
-- Laws of the array and string functions on arrays that are wide enough and strings that end.
use face_perception.Common.{
  Bool, true, false, inl, inr, subst, Bool-cases, ==_ne, ◌==◌, ℕ, zero, suc, ◌+◌, ◌-◌, ◌≤◌, ◌<◌,
  ◌≡◌, ◌≢◌, refl, ap, ◌∙◌, Bytes, [], ◌∷◌, ◌++◌, arith, equal, map, All, length, set-append, take,
  drop, length-append, append_assoc, take-append, drop-append_add,
}
use face_perception.Outcome.{>>=-eq-done, done-injective, done, fault, out_of_bounds}
use face_perception.Memory.{
  zeros, put, write, c_text, strlen, strcpy, strcat, sprintf_s, str_eq, str_case_eq, to_lower,
}

-- Text that holds no terminator.
abbrev pub IsText : Bytes → Type 0
IsText = All (λ c. c ≢ 0)

-- The array holds the C string `t`; `rest` stands behind the terminator.
pub record Holds (buf t : Bytes) : Type 0 where
  pub is_text : IsText t
  pub rest : Bytes
  pub splits : buf ≡ t ++ 0 ∷ rest

pub length-zeros : (n : ℕ) → length (zeros n) ≡ n
unfolding zeros
length-zeros zero = refl
length-zeros (suc n) = ap suc (length-zeros n)

pub zeros-suc : (n : ℕ) → zeros (suc n) ≡ 0 ∷ zeros n
unfolding zeros
zeros-suc n = refl

pub drop-zeros : (k n : ℕ) → drop k (zeros n) ≡ zeros (n - k)
unfolding zeros
drop-zeros zero n = let e : n - 0 ≡ n = omega arith in rw e
drop-zeros (suc k) zero = let e : 0 - suc k ≡ 0 = omega arith in rw e
drop-zeros (suc k) (suc n) = let e : suc n - suc k ≡ n - k = omega arith in rw e (drop-zeros k n)

-- What is left of a zeroed array behind a text that fits begins with a terminator.
pub drop-zeros_lt : (k n : ℕ) → k < n → drop k (zeros n) ≡ 0 ∷ zeros (n - k - 1)
drop-zeros_lt k n h =
    let e : n - k ≡ suc (n - k - 1) = omega arith in
    drop-zeros k n ∙ ap zeros e ∙ zeros-suc (n - k - 1)

-- A byte put where `w` ends replaces the byte that stands there.
pub put-append :
    (w : Bytes) (x c : ℕ) (r : Bytes) → put (w ++ x ∷ r) (length w) c ≡ done (w ++ c ∷ r)
unfolding put
put-append w x c r = ground (arith, length-append w (x ∷ r), set-append w x c r)

pub put_outside : (buf : Bytes) (i c : ℕ) → length buf ≤ i → put buf i c ≡ fault out_of_bounds
unfolding put
put_outside buf i c h = ground arith

pub c_text_lem : (t r : Bytes) → IsText t → c_text (t ++ 0 ∷ r) ≡ done t
unfolding c_text
c_text_lem [] r h = refl
c_text_lem (c ∷ t) r h = ground (arith, c_text_lem t r h.1)

pub c_text-IsText : (p : Bytes) {t : Bytes} → c_text p ≡ done t → IsText t
unfolding c_text
c_text-IsText [] h = cc
c_text-IsText (c ∷ p) {t} h = elim (Bool-cases (c == 0)) [
  | inl stop ↦ subst IsText (done-injective (rw stop at h)) tt
  | inr more ↦
      let (t', e, last) = >>=-eq-done (c_text p) _ (rw more at h) in
      subst IsText (done-injective last) (ground arith, c_text-IsText p e)
]

pub write_lem :
    (dst : Bytes) (i : ℕ) (s : Bytes)
    → i + length s ≤ length dst
    → write dst i s ≡ done (take i dst ++ (s ++ drop (i + length s) dst))
unfolding write
write_lem dst i s h = ground arith

pub write_outside :
    (dst : Bytes) (i : ℕ) (s : Bytes)
    → length dst < i + length s
    → write dst i s ≡ fault out_of_bounds
unfolding write
write_outside dst i s h = ground arith

pub write_start :
    (dst s : Bytes) → length s ≤ length dst → write dst 0 s ≡ done (s ++ drop (length s) dst)
unfolding write
write_start dst s h = let e : 0 + length s ≡ length s = omega arith in rw e (ground arith)

pub strlen_lem : (t r : Bytes) → IsText t → strlen (t ++ 0 ∷ r) ≡ done (length t)
unfolding strlen
strlen_lem t r h = rw (c_text_lem t r h)

length-terminated : (t : Bytes) → length (t ++ 0 ∷ []) ≡ suc (length t)
length-terminated t = omega (arith, length-append t (0 ∷ []))

pub strcpy_lem :
    (dst t r : Bytes)
    → IsText t
    → length t < length dst
    → strcpy dst (t ++ 0 ∷ r) ≡ done (t ++ 0 ∷ drop (suc (length t)) dst)
unfolding strcpy
strcpy_lem dst t r h fits =
    rw
      (
        c_text_lem t r h,
        write_start dst (t ++ 0 ∷ []) (omega (arith, length-terminated t)),
        length-terminated t,
      )
      (ap done (append_assoc t (0 ∷ []) (drop (suc (length t)) dst)))

pub strcpy_outside :
    (dst t r : Bytes)
    → IsText t
    → length dst ≤ length t
    → strcpy dst (t ++ 0 ∷ r) ≡ fault out_of_bounds
unfolding strcpy
strcpy_outside dst t r h wide =
    rw (c_text_lem t r h) (write_outside dst 0 (t ++ 0 ∷ []) (omega (arith, length-terminated t)))

pub sprintf_s_lem :
    (dst prefix t r : Bytes)
    → IsText t
    → length prefix + length t < length dst
    → sprintf_s dst prefix (t ++ 0 ∷ r)
      ≡ done (prefix ++ (t ++ 0 ∷ drop (suc (length prefix + length t)) dst))
unfolding sprintf_s
sprintf_s_lem dst prefix t r h fits =
    let n : length (prefix ++ (t ++ 0 ∷ [])) ≡ suc (length prefix + length t) =
      omega (arith, length-append prefix (t ++ 0 ∷ []), length-terminated t) in
    rw (c_text_lem t r h, write_start dst (prefix ++ (t ++ 0 ∷ [])) (omega arith), n)
      (simp append_assoc)

pub sprintf_s_outside :
    (dst prefix t r : Bytes)
    → IsText t
    → length dst ≤ length prefix + length t
    → sprintf_s dst prefix (t ++ 0 ∷ r) ≡ fault out_of_bounds
unfolding sprintf_s
sprintf_s_outside dst prefix t r h wide = rw (c_text_lem t r h) (
    write_outside dst 0 (prefix ++ (t ++ 0 ∷ []))
      (omega (arith, length-append prefix (t ++ 0 ∷ []), length-terminated t)))

pub strcat_lem :
    (d r t q : Bytes)
    → IsText d
    → IsText t
    → length t ≤ length r
    → strcat (d ++ 0 ∷ r) (t ++ 0 ∷ q) ≡ done (d ++ (t ++ 0 ∷ drop (length t) r))
unfolding strcat
strcat_lem d r t q hd ht fits =
    rw
      (
        c_text_lem d r hd,
        c_text_lem t q ht,
        write_lem (d ++ 0 ∷ r) (length d) (t ++ 0 ∷ [])
            (omega (arith, length-terminated t, length-append d (0 ∷ r))),
        take-append d (0 ∷ r),
        drop-append_add d (0 ∷ r) (length (t ++ 0 ∷ [])),
        length-terminated t,
      )
      (simp append_assoc)

pub strcat_outside :
    (d r t q : Bytes)
    → IsText d
    → IsText t
    → length r < length t
    → strcat (d ++ 0 ∷ r) (t ++ 0 ∷ q) ≡ fault out_of_bounds
unfolding strcat
strcat_outside d r t q hd ht wide =
    rw (c_text_lem d r hd, c_text_lem t q ht)
      (write_outside (d ++ 0 ∷ r) (length d) (t ++ 0 ∷ [])
        (omega (arith, length-terminated t, length-append d (0 ∷ r))))

pub str_eq_lem :
    (s t r q : Bytes) → IsText s → IsText t → str_eq (s ++ 0 ∷ r) (t ++ 0 ∷ q) ≡ done (equal s t)
unfolding str_eq equal
str_eq_lem [] [] r q hs ht = refl
str_eq_lem [] (y ∷ t) r q hs ht = ground arith
str_eq_lem (x ∷ s) [] r q hs ht = ground arith
str_eq_lem (x ∷ s) (y ∷ t) r q hs ht = ground (arith, str_eq_lem s t r q hs.1 ht.1)

-- `sprintf` of a text with its terminator to the start of an array.
pub write_terminated :
    (dst t : Bytes)
    → length t < length dst
    → write dst 0 (t ++ 0 ∷ []) ≡ done (t ++ 0 ∷ drop (suc (length t)) dst)
write_terminated dst t fits =
    rw (write_start dst (t ++ 0 ∷ []) (omega (arith, length-terminated t)), length-terminated t)
      (ap done (append_assoc t (0 ∷ []) (drop (suc (length t)) dst)))

-- The comparison without regard to case ends on C strings, whatever it finds.
pub str_case_eq_done :
    (s t r q : Bytes)
    → IsText s
    → IsText t
    → (b : Bool) × (str_case_eq (s ++ 0 ∷ r) (t ++ 0 ∷ q) ≡ done b)
unfolding str_case_eq to_lower
str_case_eq_done [] [] r q hs ht = (true, refl)
str_case_eq_done [] (y ∷ t) r q hs ht = (false, ground arith)
str_case_eq_done (x ∷ s) [] r q hs ht = (false, ground arith)
str_case_eq_done (x ∷ s) (y ∷ t) r q hs ht =
    let (b, e) = str_case_eq_done s t r q hs.1 ht.1 in
    elim (Bool-cases (to_lower x == to_lower y)) [
      | inl same ↦ (b, rw (same, ==_ne x 0 hs.0) e)
      | inr other ↦ (false, rw other)
    ]

to_lower_ne : (c : ℕ) → c ≢ 0 → to_lower c ≢ 0
unfolding to_lower
to_lower_ne c h = ground arith

-- `strcasecmp` compares the texts in lower case.
pub str_case_eq_lem :
    (s t r q : Bytes)
    → IsText s
    → IsText t
    → str_case_eq (s ++ 0 ∷ r) (t ++ 0 ∷ q) ≡ done (equal (map to_lower s) (map to_lower t))
unfolding str_case_eq equal
str_case_eq_lem [] [] r q hs ht = unfold to_lower in refl
str_case_eq_lem [] (y ∷ t) r q hs ht = unfold to_lower in ground (arith, to_lower_ne y ht.0)
str_case_eq_lem (x ∷ s) [] r q hs ht = unfold to_lower in ground (arith, to_lower_ne x hs.0)
str_case_eq_lem (x ∷ s) (y ∷ t) r q hs ht = elim (Bool-cases (to_lower x == to_lower y)) [
  | inl same ↦ rw (same, ==_ne x 0 hs.0) (str_case_eq_lem s t r q hs.1 ht.1)
  | inr other ↦ rw other
]
