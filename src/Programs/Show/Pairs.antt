-- ===== src/Programs/Show/Pairs.antt =====
-- cgi_bin/show.cpp: how `recv_str` splits a query of two pairs.
use face_perception.Common.{
  ℕ, suc, ◌+◌, ◌≡◌, ◌≢◌, refl, Bytes, Option, some, none, [], ◌∷◌, ◌++◌, append_assoc, arith, ==_ne,
  All, length, drop, All-append, drop-append_add, codes,
}
use face_perception.Outcome.{done}
use face_perception.Memory.Laws.{IsText, c_text_lem}
use face_perception.Attendance.Query.Laws.{query_text}
use face_perception.Programs.Show.{split_loop, print_at, recv_str}

-- A byte of a key or of a name.
abbrev pub IsPairByte : ℕ → Type 0
IsPairByte c = ((c ≢ 0) × (c ≢ b'=')) × (c ≢ b'&')

pair-IsText : (t : Bytes) → All IsPairByte t → IsText t
pair-IsText [] h = tt
pair-IsText (c ∷ t) h = (h.0.0.0, pair-IsText t h.1)

pub query-IsText :
    (key name key' id : Bytes)
    → All IsPairByte key
    → All IsPairByte name
    → All IsPairByte key'
    → IsText id
    → IsText (query_text key name key' id)
query-IsText key name key' id h k l t =
    All-append (λ c. c ≢ 0) key _ (pair-IsText key h)
      (
        omega arith,
        All-append (λ c. c ≢ 0) name _ (pair-IsText name k)
            (omega arith, All-append (λ c. c ≢ 0) key' _ (pair-IsText key' l) (omega arith, t)),
      )

split_loop-text :
    (t : Bytes) (i : ℕ) (name : Option ℕ) (rest : Bytes) {out : Bytes} {n d : Option ℕ}
    → All IsPairByte t
    → split_loop (i + length t) name rest ≡ done (out, n, d)
    → split_loop i name (t ++ rest) ≡ done (t ++ out, n, d)
unfolding split_loop
split_loop-text [] i name rest h e = let z : i + 0 ≡ i = omega arith in rw z at e
split_loop-text (c ∷ t) i name rest h e =
    let z : i + suc (length t) ≡ i + 1 + length t = omega arith in
    let more = split_loop-text t (i + 1) name rest h.1 (rw z at e) in
    rw (==_ne c 0 h.0.0.0, ==_ne c b'=' h.0.0.1, ==_ne c b'&' h.0.1, more)

split_loop-first :
    (i : ℕ) (rest : Bytes) {out : Bytes} {n d : Option ℕ}
    → split_loop (i + 1) (some (i + 1)) rest ≡ done (out, n, d)
    → split_loop i none (b'=' ∷ rest) ≡ done (b'=' ∷ out, n, d)
unfolding split_loop
split_loop-first i rest e = rw e

split_loop-and :
    (i : ℕ) (name : Option ℕ) (rest : Bytes) {out : Bytes} {n d : Option ℕ}
    → split_loop (i + 1) name rest ≡ done (out, n, d)
    → split_loop i name (b'&' ∷ rest) ≡ done (0 ∷ out, n, d)
unfolding split_loop
split_loop-and i name rest e = rw e

split_loop-second :
    (i k : ℕ) (rest : Bytes)
    → split_loop i (some k) (b'=' ∷ rest) ≡ done (b'=' ∷ rest, some k, some (i + 1))
unfolding split_loop
split_loop-second i k rest = refl

module _ (key name key' : Bytes) where
  -- The text that the loop leaves.
  abbrev split_text : Bytes → Bytes
  split_text rest = key ++ b'=' ∷ (name ++ 0 ∷ (key' ++ b'=' ∷ rest))

  split_loop_lem :
      (rest : Bytes)
      → All IsPairByte key
      → All IsPairByte name
      → All IsPairByte key'
      → split_loop 0 none (key ++ b'=' ∷ (name ++ b'&' ∷ (key' ++ b'=' ∷ rest)))
        ≡ done (
          split_text rest,
          some (0 + length key + 1),
          some (0 + length key + 1 + length name + 1 + length key' + 1),
        )
  split_loop_lem rest h k l =
      let i = 0 + length key in
      let j = i + 1 + length name in
      split_loop-text key 0 none _ h (
        split_loop-first i _ (
          split_loop-text name (i + 1) (some (i + 1)) _ k (
            split_loop-and j (some (i + 1)) _ (
              split_loop-text key' (j + 1) (some (i + 1)) _ l
                (split_loop-second (j + 1 + length key') (i + 1) rest)))))

  drop-name :
      (rest : Bytes)
      → drop (0 + length key + 1) (split_text rest) ≡ name ++ 0 ∷ (key' ++ b'=' ∷ rest)
  drop-name rest =
      let z : 0 + length key + 1 ≡ length key + 1 = omega arith in
      rw z (drop-append_add key (b'=' ∷ (name ++ 0 ∷ (key' ++ b'=' ∷ rest))) 1)

  drop-id :
      (rest : Bytes)
      → drop (0 + length key + 1 + length name + 1 + length key' + 1) (split_text rest) ≡ rest
  drop-id rest =
      let z : 0 + length key + 1 + length name + 1 + length key' + 1
          ≡ length key + suc (length name + suc (length key' + 1)) =
        omega arith in
      rw
        (
          z,
          drop-append_add key (b'=' ∷ (name ++ 0 ∷ (key' ++ b'=' ∷ rest)))
              (suc (length name + suc (length key' + 1))),
          drop-append_add name (0 ∷ (key' ++ b'=' ∷ rest)) (suc (length key' + 1)),
        )
        (drop-append_add key' (b'=' ∷ rest) 1)

-- The two lines of the page.
abbrev pub lines : Bytes → Bytes → Bytes
lines name id =
    codes "<p> name is :%s </p>"
    ++ (name ++ codes "\n")
    ++ (codes "<p> id   is :%s </p>" ++ (id ++ codes "\n"))

pub recv_str_lem :
    (key name key' id rest : Bytes)
    → All IsPairByte key
    → All IsPairByte name
    → All IsPairByte key'
    → IsText id
    → recv_str (query_text key name key' id ++ 0 ∷ rest) ≡ done (lines name id)
unfolding recv_str print_at
recv_str_lem key name key' id rest h k l t =
    let flat : query_text key name key' id ++ 0 ∷ rest
        ≡ key ++ b'=' ∷ (name ++ b'&' ∷ (key' ++ b'=' ∷ (id ++ 0 ∷ rest))) =
      simp append_assoc in
    rw (
      flat,
      split_loop_lem key name key' (id ++ 0 ∷ rest) h k l,
      drop-name key name key' (id ++ 0 ∷ rest),
      drop-id key name key' (id ++ 0 ∷ rest),
      c_text_lem name (key' ++ b'=' ∷ (id ++ 0 ∷ rest)) (pair-IsText name k),
      c_text_lem id rest t,
    )
