-- ===== src/Http/Main/Keeps.antt =====
-- The steps of a connection that leave the roster alone.
use face_perception.Common.{
  ℕ, ◌≡◌, refl, ap, sym, ◌∙◌, Bool, true, false, Bytes, String, Option, some, none, if◌then◌else◌,
}
use face_perception.Common.Int.{ℤ, pos}
use face_perception.Outcome.{
  Outcome, Fault, done, fault, exited, null_pointer, ◌>>=◌, >>=-eq-done, done-injective,
}
use face_perception.Memory.{zeros, literal, strcpy, strcat, c_text, str_eq, str_case_eq}
use face_perception.Http.World.{size, Stat, Os, World, sent_file, emit, send_text}
use face_perception.Http.Files.{send_header, skip_header, exec_get_file, exec_get_stat, exec_get}
use face_perception.Http.Cgi.{
  clear_head, read_length, send_status, child_env, child_output, answer_by_program, exec_cgi,
}

-- If the step returns, the roster is that of `w`.
abbrev pub Keeps : World → Outcome World → Type 0
Keeps w m = (w' : World) → m ≡ done w' → w'.roster ≡ w.roster

done-Keeps : (w v : World) → v.roster ≡ w.roster → Keeps w (done v)
done-Keeps w v e w' h = ap (λ (x : World). x.roster) (sym (done-injective h)) ∙ e

-- A step behind a step.
bind-Keeps :
    (w : World) (m : Outcome World) (f : World → Outcome World)
    → Keeps w m
    → ((v : World) → Keeps v (f v))
    → Keeps w (m >>= f)
bind-Keeps w m f k l w' h = let (v, e, e') = >>=-eq-done m f h in l v w' e' ∙ k v e

-- A step behind a value.
value-Keeps {ℓ} :
    {A : Type ℓ} (w : World) (m : Outcome A) (f : A → Outcome World)
    → ((a : A) → Keeps w (f a))
    → Keeps w (m >>= f)
value-Keeps w m f l w' h = let (a, e, e') = >>=-eq-done m f h in l a w' e'

if-Keeps :
    (w : World) (b : Bool) {m n : Outcome World}
    → Keeps w m
    → Keeps w n
    → Keeps w (if b then m else n)
if-Keeps w true k l = k
if-Keeps w false k l = l

fault-Keeps : (w : World) (e : Fault) → Keeps w (fault e)
fault-Keeps w e w' h = cc

send_text-Keeps : (s : String) (w : World) → Keeps w (send_text s w)
unfolding send_text
send_text-Keeps s w w' h =
    let (buf, _, h1) = >>=-eq-done (strcpy (zeros size) (literal s)) _ h in
    let (text, _, h2) = >>=-eq-done (c_text buf) _ h1 in
    ap (λ (x : World). x.roster) (sym (done-injective h2))

-- Four texts, and what follows them.
four-Keeps :
    (a b c d : String) (w : World) (f : World → Outcome World)
    → ((v : World) → Keeps v (f v))
    → Keeps w
        (do w1 ← send_text a w; w2 ← send_text b w1; w3 ← send_text c w2; w4 ← send_text d w3; f w4)
four-Keeps a b c d w f k = bind-Keeps w (send_text a w) _ (send_text-Keeps a w) (λ w1.
    bind-Keeps w1 (send_text b w1) _ (send_text-Keeps b w1) (λ w2.
      bind-Keeps w2 (send_text c w2) _ (send_text-Keeps c w2)
        (λ w3. bind-Keeps w3 (send_text d w3) f (send_text-Keeps d w3) k)))

send_header-Keeps : (path : Bytes) (len : ℕ) (w : World) → Keeps w (send_header path len w)
unfolding send_header
send_header-Keeps path len w =
    four-Keeps _ _ _ _ w (λ v. done (emit (sent_file path len) v))
      (λ v. done-Keeps v (emit (sent_file path len) v) refl)

exec_get_file-Keeps :
    (os : Os) (fuel : ℕ) (path : Bytes) (len : ℕ) (w : World)
    → Keeps w (exec_get_file os fuel path len w)
unfolding exec_get_file
exec_get_file-Keeps os fuel path len w =
    value-Keeps w (skip_header fuel fuel 1 (zeros size) w.input) _ (λ input.
      value-Keeps w (c_text path) _ (λ text.
        if-Keeps w (os.opens text) (send_header-Keeps text len (record w { input = input }))
          (fault-Keeps w null_pointer)))

exec_get_stat-Keeps :
    (os : Os) (fuel : ℕ) (path : Bytes) (w : World) (st : Option Stat)
    → Keeps w (exec_get_stat os fuel path w st)
unfolding exec_get_stat
exec_get_stat-Keeps os fuel path w none = done-Keeps w w refl
exec_get_stat-Keeps os fuel path w (some st) =
    value-Keeps w (if st.is_dir then strcat path (literal "/index.html") else done path) _
      (λ path'. exec_get_file-Keeps os fuel path' st.st_size w)

pub exec_get-Keeps :
    (os : Os) (fuel : ℕ) (path : Bytes) (w : World) → Keeps w (exec_get os fuel path w)
unfolding exec_get
exec_get-Keeps os fuel path w =
    value-Keeps w (c_text path) _ (λ text. exec_get_stat-Keeps os fuel path w (os.stat text))

send_status-Keeps : (w : World) → Keeps w (send_status w)
unfolding send_status
send_status-Keeps w = bind-Keeps w (send_text _ w) _ (send_text-Keeps _ w) (λ w1.
    bind-Keeps w1 (send_text _ w1) _ (send_text-Keeps _ w1)
      (λ w2. bind-Keeps w2 (send_text _ w2) _ (send_text-Keeps _ w2) (λ w3. send_text-Keeps _ w3)))

answer_by_program-Keeps :
    (os : Os) (ch : ℕ) (path method query : Bytes) (n : ℤ) (w : World)
    → Keeps w (answer_by_program os ch path method query n w)
unfolding answer_by_program
answer_by_program-Keeps os ch path method query n w =
    if-Keeps w os.forks
      (value-Keeps w (str_case_eq method (literal "POST")) _ (λ post.
        value-Keeps w (c_text path) _ (λ text.
          value-Keeps w (child_output os text _ (child_env method query n)) _
            (λ output. done-Keeps w _ refl))))
      (fault-Keeps w exited)

pub exec_cgi-Keeps :
    (os : Os) (fuel ch : ℕ) (path method query : Bytes) (w : World)
    → Keeps w (exec_cgi os fuel ch path method query w)
unfolding exec_cgi
exec_cgi-Keeps os fuel ch path method query w =
    value-Keeps w (str_eq method (literal "GET")) _ (λ get.
      value-Keeps w
        (if get
          then (clear_head fuel fuel (zeros size) w.input >>= λ i. done (pos 0, i))
          else read_length fuel fuel (pos 0) w.input)
        _
        (λ length. if-Keeps w _ (done-Keeps w (record w { input = length.1 }) refl) (
          bind-Keeps w (send_status (record w { input = length.1 })) _
            (send_status-Keeps (record w { input = length.1 }))
            (λ v. answer_by_program-Keeps os ch path method query length.0 v))))
