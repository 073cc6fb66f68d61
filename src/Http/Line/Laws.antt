-- ===== src/Http/Line/Laws.antt =====
-- Which lines `get_line` reads, and the ones on which it writes past its array or never returns.
use face_perception.Common.{
  ℕ, suc, ◌+◌, ◌-◌, ◌≤◌, ◌<◌, ◌≡◌, ◌≢◌, refl, ◌∙◌, ◌⊎◌, inr, true, false, Bytes, [], ◌∷◌, ◌++◌,
  append_assoc, arith, ltb-true, ==_ne, All, length, drop, length-append, length-drop, drop-cons,
}
use face_perception.Outcome.{done}
use face_perception.Memory.{put, str_eq, literal}
use face_perception.Memory.Laws.{put-append}
use face_perception.Http.Line.{byte, Input, arriving, line_loop, end_line, get_line}

-- A byte that does not end a line.
abbrev pub IsPlain : ℕ → Type 0
IsPlain c = (c ≢ 0) × (c ≢ b'\n') × (c ≢ b'\r')

abbrev pub IsEnd : ℕ → Type 0
IsEnd c = (c ≡ 0) ⊎ ((c ≡ b'\n') ⊎ (c ≡ b'\r'))

-- One plain byte is stored behind those that were read before it.
pub line_loop-byte :
    (fuel : ℕ) (w : Bytes) (x : ℕ) (free : Bytes) (size i ch c : ℕ) (rest : Input)
    → i ≡ length w
    → i < size - 1
    → ch ≢ b'\n'
    → IsPlain c
    → line_loop (suc fuel) size (w ++ x ∷ free) i ch (byte c ∷ rest)
      ≡ line_loop fuel size (w ++ c ∷ free) (i + 1) c rest
unfolding line_loop
line_loop-byte fuel w x free size i ch c rest e lt h p = ground (arith, put-append w x c free)

-- `ch` once `text` has been read.
abbrev pub last_byte : ℕ → Bytes → ℕ
last_byte ch [] = ch
last_byte ch (c ∷ text) = last_byte c text

pub last_byte-IsPlain :
    (c : ℕ) (text : Bytes) → IsPlain c → All IsPlain text → IsPlain (last_byte c text)
last_byte-IsPlain c [] h p = h
last_byte-IsPlain c (d ∷ text) h p = last_byte-IsPlain d text p.0 p.1

last_byte-ne : (ch : ℕ) (text : Bytes) → ch ≢ b'\n' → All IsPlain text → last_byte ch text ≢ b'\n'
last_byte-ne ch [] h p = h
last_byte-ne ch (d ∷ text) h p = last_byte-ne d text p.0.1 p.1

-- `w` has been read already, and `text` follows.
pub line_loop-text :
    (text : Bytes) (fuel : ℕ) (w free : Bytes) (size i ch : ℕ) (rest : Input)
    → i ≡ length w
    → length text ≤ length free
    → i + length text < size
    → ch ≢ b'\n'
    → All IsPlain text
    → line_loop (length text + fuel) size (w ++ free) i ch (arriving text ++ rest)
      ≡ line_loop fuel size
          (w ++ (text ++ drop (length text) free))
          (i + length text)
          (last_byte ch text)
          rest
line_loop-text [] fuel w free size i ch rest e fits lt h p =
    let f : 0 + fuel ≡ fuel = omega arith in let j : i + 0 ≡ i = omega arith in rw (f, j)
line_loop-text (c ∷ text) fuel w [] size i ch rest e fits lt h p = absurd (omega arith)
line_loop-text (c ∷ text) fuel w (x ∷ free) size i ch rest e fits lt h p =
    let f : suc (length text) + fuel ≡ suc (length text + fuel) = omega arith in
    let j : i + suc (length text) ≡ i + 1 + length text = omega arith in
    rw (f, j)
      (line_loop-byte (length text + fuel) w x free size i ch c (arriving text ++ rest) e
          (omega arith) h p.0
        ∙ rw
            (
              ← append_assoc w (c ∷ []) free,
              ← append_assoc w (c ∷ []) (text ++ drop (length text) free),
            )
            (line_loop-text text fuel (w ++ c ∷ []) free size (i + 1) c rest
              (omega (arith, length-append w (c ∷ []))) (omega arith) (omega arith) p.0.1 p.1))

-- An end of line, and the byte behind it.
line_loop-end :
    (fuel size i ch e c : ℕ) (buf : Bytes) (rest : Input)
    → i < size - 1
    → ch ≢ b'\n'
    → IsEnd e
    → line_loop (suc fuel) size buf i ch (byte e ∷ byte c ∷ rest) ≡ done (buf, i, c, rest)
unfolding line_loop
line_loop-end fuel size i ch e c buf rest lt h end = ground arith

-- The line as it is stored: the text, a newline and a terminator.
unfoldable pub stored : Bytes → Bytes → Bytes
stored buf text = text ++ b'\n' ∷ 0 ∷ drop (length text + 2) buf

put_second :
    (w : Bytes) (x y c : ℕ) (r : Bytes)
    → put (w ++ x ∷ y ∷ r) (length w + 1) c ≡ done (w ++ x ∷ c ∷ r)
put_second w x y c r =
    let n : length w + 1 ≡ length (w ++ x ∷ []) = omega (arith, length-append w (x ∷ [])) in
    rw (
      n,
      ← append_assoc w (x ∷ []) (y ∷ r),
      put-append (w ++ x ∷ []) y c r,
      append_assoc w (x ∷ []) (c ∷ r),
    )

pub end_line-stored :
    (buf text : Bytes) (c : ℕ) (rest : Input)
    → c ≢ 0
    → length text + 2 ≤ length buf
    → end_line (text ++ drop (length text) buf, length text, c, rest)
      ≡ done (length text + 1, stored buf text, rest)
unfolding end_line stored
end_line-stored buf text c rest h fits =
    let n = length text in
    let (x, e) = drop-cons n buf (omega arith) in
    let (y, e') = drop-cons (suc n) buf (omega arith) in
    let two : n + 2 ≡ suc (suc n) = omega arith in
    rw (
      ==_ne c 0 h,
      e,
      put-append text x b'\n' (drop (suc n) buf),
      e',
      put_second text b'\n' y 0 (drop (suc (suc n)) buf),
      two,
    )

-- What the loop makes of a line that fits.
pub line_loop_lem :
    (fuel : ℕ) (buf text : Bytes) (e c : ℕ) (rest : Input)
    → All IsPlain text
    → IsEnd e
    → length text + 2 ≤ length buf
    → length text < fuel
    → line_loop fuel (length buf) buf 0 0 (arriving text ++ byte e ∷ byte c ∷ rest)
      ≡ done (text ++ drop (length text) buf, length text, c, rest)
line_loop_lem fuel buf text e c rest p end fits enough =
    let f : fuel ≡ length text + suc (fuel - length text - 1) = omega arith in
    let more = fuel - length text - 1 in
    let z : 0 + length text ≡ length text = omega arith in
    rw (
      f,
      line_loop-text text (suc more) [] buf (length buf) 0 0 (byte e ∷ byte c ∷ rest) refl
          (omega arith) (omega arith) (omega arith) p,
      line_loop-end more (length buf) (0 + length text) (last_byte 0 text) e c
          (text ++ drop (length text) buf) rest (omega arith) (last_byte-ne 0 text (omega arith) p)
          end,
      z,
    )

-- A line that fits is read whole, whichever byte ends it, and the byte behind that end is read
-- with it and thrown away.
pub get_line_lem :
    (fuel : ℕ) (buf text : Bytes) (e c : ℕ) (rest : Input)
    → All IsPlain text
    → IsEnd e
    → c ≢ 0
    → length text + 2 ≤ length buf
    → length text < fuel
    → get_line fuel buf (length buf) (arriving text ++ byte e ∷ byte c ∷ rest)
      ≡ done (length text + 1, stored buf text, rest)
unfolding get_line
get_line_lem fuel buf text e c rest p end h fits enough =
    rw
      (
        ltb-true 0 (length buf) (omega arith),
        line_loop_lem fuel buf text e c rest p end fits enough,
      )
      (end_line-stored buf text c rest h fits)

pub length-stored :
    (buf text : Bytes) → length text + 2 ≤ length buf → length (stored buf text) ≡ length buf
unfolding stored
length-stored buf text h = omega (
  arith,
  length-append text (b'\n' ∷ 0 ∷ drop (length text + 2) buf),
  length-drop (length text + 2) buf,
)

-- The buffer holds the line "\n" after an empty line only.
pub stored-IsBlank : (buf : Bytes) → str_eq (stored buf []) (literal "\n") ≡ done true
unfolding stored str_eq
stored-IsBlank buf = refl

pub stored_ne :
    (buf text : Bytes)
    → text ≢ []
    → All IsPlain text
    → str_eq (stored buf text) (literal "\n") ≡ done false
unfolding stored str_eq
stored_ne buf [] ne p = absurd (ne refl)
stored_ne buf (c ∷ text) ne p = rw (==_ne c b'\n' p.0.1)

-- A line that CR LF ends, at a buffer of a known size.
pub get_line_crlf :
    (fuel n : ℕ) (buf text : Bytes) (rest : Input)
    → length buf ≡ n
    → All IsPlain text
    → length text + 2 ≤ n
    → length text < fuel
    → get_line fuel buf n (arriving text ++ byte b'\r' ∷ byte b'\n' ∷ rest)
      ≡ done (length text + 1, stored buf text, rest)
get_line_crlf fuel n buf text rest e p fits enough = rw (← e) (
    get_line_lem fuel buf text b'\r' b'\n' rest p (inr (inr refl)) (omega arith) (omega arith)
      enough)
