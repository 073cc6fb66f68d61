-- ===== src/Programs/Show/Started.antt =====
-- cgi_bin/show.cpp as the server starts it: with the strings of `child_env`.
use face_perception.Common.{
  ◌+◌, ◌≡◌, refl, sym, ap, ◌∙◌, ◌⊎◌, inl, inr, Bytes, Option, some, none, List, [], ◌∷◌, ◌++◌,
  append_assoc, arith, ==_ne, leb, Bool-cases, length, drop, codes,
}
use face_perception.Common.Int.{ℤ}
use face_perception.Outcome.{Outcome, done, fault, null_pointer, >>=-eq-done, done-injective}
use face_perception.Memory.{zeros, literal, write, c_text, sprintf_s, str_eq}
use face_perception.Memory.Laws.{IsText}
use face_perception.Attendance.Report.{decimal}
use face_perception.Http.Request.{method_size, query_size}
use face_perception.Http.Cgi.{child_env}
use face_perception.Programs.Show.{strip, or_else, getenv, show_request, show}

-- A string that starts with a text.
abbrev StartsWith : Bytes → Bytes → Type 0
StartsWith p s = (r : Bytes) × (s ≡ p ++ r)

write-done : (dst p s : Bytes) {b : Bytes} → write dst 0 (p ++ s) ≡ done b → StartsWith p b
unfolding write
write-done dst p s {b} h = elim (Bool-cases (leb (0 + length (p ++ s)) (length dst))) [
  | inl fits ↦ (
    s ++ drop (0 + length (p ++ s)) dst,
    sym (done-injective (rw fits at h)) ∙ append_assoc p s (drop (0 + length (p ++ s)) dst),
  )
  | inr wide ↦ let no = rw wide at h in cc
]

c_text-prefix : (p r : Bytes) {t : Bytes} → IsText p → c_text (p ++ r) ≡ done t → StartsWith p t
unfolding c_text
c_text-prefix [] r {t} h e = (t, refl)
c_text-prefix (c ∷ p) r h e =
    let (t', e', last) = >>=-eq-done (c_text (p ++ r)) _ (rw (==_ne c 0 h.0) at e) in
    let (r', k) = c_text-prefix p r h.1 e' in (r', sym (done-injective last) ∙ ap (◌∷◌ c) k)

-- What `c_text` reads from an array that starts with a text starts with it too.
c_text-StartsWith :
    (p b : Bytes) {t : Bytes} → IsText p → StartsWith p b → c_text b ≡ done t → StartsWith p t
c_text-StartsWith p b h (r, e) k = c_text-prefix p r h (rw e at k)

sprintf_s-prefix : (dst p src : Bytes) {b : Bytes} → sprintf_s dst p src ≡ done b → StartsWith p b
unfolding sprintf_s
sprintf_s-prefix dst p src h =
    let (t, e, k) = >>=-eq-done (c_text src) _ h in write-done dst p (t ++ 0 ∷ []) k

-- The two strings that the child sets.
record Strings (env : List Bytes) : Type 0 where
  method_env : Bytes
  other_env : Bytes
  is_env : env ≡ method_env ∷ other_env ∷ []
  method_starts : StartsWith (codes "REQUEST_METHOD:") method_env
  other_starts :
      StartsWith (codes "QUERY_STRING:") other_env ⊎ StartsWith (codes "CONTENT-LENGTH:") other_env

both :
    {m o printed p : Bytes} {env : List Bytes}
    → ◌≡◌ {A = Outcome (List Bytes × Bytes)} (done (m ∷ o ∷ [], p)) (done (env, printed))
    → StartsWith (codes "REQUEST_METHOD:") m
    → StartsWith (codes "QUERY_STRING:") o ⊎ StartsWith (codes "CONTENT-LENGTH:") o
    → Strings env
both {m} {o} h starts other = record {
  method_env = m;
  other_env = o;
  is_env = sym (ap (λ x. x.0) (done-injective h));
  method_starts = starts;
  other_starts = other;
}

child_env-Strings :
    (method query : Bytes) (n : ℤ) {env : List Bytes} {printed : Bytes}
    → child_env method query n ≡ done (env, printed)
    → Strings env
unfolding child_env
child_env-Strings method query n h =
    let (m, m_is, h1) =
      >>=-eq-done (sprintf_s (zeros method_size) (codes "REQUEST_METHOD:") method) _ h in
    let (m_env, m_text, h2) = >>=-eq-done (c_text m) _ h1 in
    let (get, get_is, h3) = >>=-eq-done (str_eq method (literal "GET")) _ h2 in
    let starts =
      c_text-StartsWith (codes "REQUEST_METHOD:") m (omega arith) (sprintf_s-prefix _ _ _ m_is)
        m_text in
    elim (Bool-cases get) [
      | inl is_get ↦
          let (q, q_is, h4) =
            >>=-eq-done (sprintf_s (zeros query_size) (codes "QUERY_STRING:") query) _
              (rw is_get at h3) in
          let (q_env, q_text, h5) = >>=-eq-done (c_text q) _ h4 in
          both h5 starts (
            inl (
              c_text-StartsWith (codes "QUERY_STRING:") q (omega arith)
                (sprintf_s-prefix _ _ _ q_is) q_text))
      | inr other ↦
          let (l, l_is, h4) =
            >>=-eq-done
              (write (zeros method_size) 0 (codes "CONTENT-LENGTH:" ++ decimal n ++ 0 ∷ [])) _
              (rw other at h3) in
          let (l_env, l_text, h5) = >>=-eq-done (c_text l) _ h4 in
          both h5 starts (
            inr (
              c_text-StartsWith (codes "CONTENT-LENGTH:") l (omega arith)
                (write-done (zeros method_size) (codes "CONTENT-LENGTH:") (decimal n ++ 0 ∷ [])
                  l_is)
                l_text))
    ]

or_else_assoc : (a b c : Option Bytes) → or_else (or_else a b) c ≡ or_else a (or_else b c)
or_else_assoc (some v) b c = refl
or_else_assoc none b c = refl

getenv-append :
    (env env' : List Bytes) (name : Bytes)
    → getenv (env ++ env') name ≡ or_else (getenv env name) (getenv env' name)
unfolding getenv
getenv-append [] env' name = refl
getenv-append (e ∷ env) env' name =
    rw (getenv-append env env' name)
      (sym (or_else_assoc (strip (name ++ b'=' ∷ []) e) (getenv env name) (getenv env' name)))

Strings-lack : (env : List Bytes) → Strings env → getenv env (codes "REQUEST_STRING") ≡ none
unfolding getenv strip
Strings-lack env s =
    rw (s.is_env, s.method_starts.1) (elim s.other_starts [ inl q ↦ rw q.1 | inr l ↦ rw l.1 ])

-- If the server was started without REQUEST_STRING in its own environment, the program fails on a
-- null pointer for every request, whatever the method, the query and the input are: `child_env`
-- sets no variable of the name that `show` asks for.
pub show-child_env :
    (method query : Bytes) (n : ℤ) (inherited env : List Bytes) (printed stdin : Bytes)
    → child_env method query n ≡ done (env, printed)
    → getenv inherited (codes "REQUEST_STRING") ≡ none
    → show (inherited ++ env) stdin ≡ fault null_pointer
unfolding show show_request
show-child_env method query n inherited env printed stdin h none_there = rw (
  getenv-append inherited env (codes "REQUEST_STRING"),
  none_there,
  Strings-lack env (child_env-Strings method query n h),
)
