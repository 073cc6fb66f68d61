-- ===== src/Http/Line/Limits.antt =====
-- The lines that `get_line` does not read as meant.
use face_perception.Common.{
  ℕ, zero, suc, ◌+◌, ◌-◌, ◌≤◌, ◌<◌, ◌≡◌, ◌≢◌, refl, ◌∙◌, Bytes, [], ◌∷◌, ◌++◌, append_assoc, arith,
  ltb-true, ==_ne, All, length, drop, length-append, length-drop,
}
use face_perception.Outcome.{done, fault, out_of_bounds, spins}
use face_perception.Memory.Laws.{put-append, put_outside}
use face_perception.Http.Line.{Input, arriving, line_loop, end_line, get_line}
use face_perception.Http.Line.Laws.{
  IsPlain, last_byte, last_byte-IsPlain, line_loop-byte, line_loop-text,
}

-- With the array full the loop stops.
line_loop_full :
    (fuel size i ch : ℕ) (buf : Bytes) (rest : Input)
    → size ≤ i + 1
    → line_loop (suc fuel) size buf i ch rest ≡ done (buf, i, ch, rest)
unfolding line_loop
line_loop_full fuel size i ch buf rest h = ground arith

end_line_full :
    (w buf : Bytes) (i ch : ℕ) (rest : Input)
    → ch ≢ 0
    → i ≡ length w
    → length buf ≡ 1
    → end_line (w ++ buf, i, ch, rest) ≡ fault out_of_bounds
unfolding end_line
end_line_full w [] i ch rest h e n = absurd (omega arith)
end_line_full w (x ∷ y ∷ buf) i ch rest h e n = absurd (omega arith)
end_line_full w (x ∷ []) i ch rest h e n =
    rw (==_ne ch 0 h, e, put-append w x b'\n' [])
      (rw (
        put_outside (w ++ b'\n' ∷ []) (length w + 1) 0
          (omega (arith, length-append w (b'\n' ∷ [])))))

-- A line of `size - 1` bytes or more fills the array, and its terminator is written past the end.
pub get_line_overflow :
    (fuel c : ℕ) (text buf : Bytes) (rest : Input)
    → All IsPlain (c ∷ text)
    → length buf ≡ length (c ∷ text) + 1
    → length buf ≤ fuel
    → get_line fuel buf (length buf) (arriving (c ∷ text) ++ rest) ≡ fault out_of_bounds
unfolding get_line
get_line_overflow fuel c text buf rest p n enough =
    let k = length (c ∷ text) in
    let f : fuel ≡ k + suc (fuel - k - 1) = omega arith in
    rw
      (
        ltb-true 0 (length buf) (omega arith),
        f,
        line_loop-text (c ∷ text) (suc (fuel - k - 1)) [] buf (length buf) 0 0 rest refl
            (omega arith) (omega arith) (omega arith) p,
        line_loop_full (fuel - k - 1) (length buf) (0 + k) (last_byte c text)
            ((c ∷ text) ++ drop k buf) rest (omega arith),
      )
      (end_line_full (c ∷ text) (drop k buf) (0 + k) (last_byte c text) rest
        (last_byte-IsPlain c text p.0 p.1).0 (omega arith) (omega (arith, length-drop k buf)))

-- A closed connection leaves `ch` as it is, so nothing ends the loop.
line_loop_waits :
    (fuel size i ch : ℕ) (buf : Bytes)
    → i < size - 1
    → IsPlain ch
    → line_loop (suc fuel) size buf i ch [] ≡ line_loop fuel size buf i ch []
unfolding line_loop
line_loop_waits fuel size i ch buf lt h = ground arith

-- `buf` is wide enough for what is still to come, and the last byte is none that ends a line.
line_loop_spins :
    (fuel : ℕ) (text w free : Bytes) (size i ch : ℕ)
    → i ≡ length w
    → length text ≤ length free
    → i + length text + 1 < size
    → ch ≢ b'\n'
    → All IsPlain text
    → IsPlain (last_byte ch text)
    → line_loop fuel size (w ++ free) i ch (arriving text) ≡ spins
line_loop_spins zero text w free size i ch e fits lt h p last = unfold line_loop in refl
line_loop_spins (suc fuel) [] w free size i ch e fits lt h p last =
    line_loop_waits fuel size i ch (w ++ free) (omega arith) last
    ∙ line_loop_spins fuel [] w free size i ch e fits lt h p last
line_loop_spins (suc fuel) (c ∷ text) w [] size i ch e fits lt h p last = absurd (omega arith)
line_loop_spins (suc fuel) (c ∷ text) w (x ∷ free) size i ch e fits lt h p last =
    line_loop-byte fuel w x free size i ch c (arriving text) e (omega arith) h p.0
    ∙ rw (← append_assoc w (c ∷ []) free) (
        line_loop_spins fuel text (w ++ c ∷ []) free size (i + 1) c
          (omega (arith, length-append w (c ∷ []))) (omega arith) (omega arith) p.0.1 p.1 last)

-- If the peer closes the connection in the middle of a line that fits, the call never returns.
pub get_line_spins :
    (fuel c : ℕ) (text buf : Bytes)
    → All IsPlain (c ∷ text)
    → length (c ∷ text) + 1 < length buf
    → get_line fuel buf (length buf) (arriving (c ∷ text)) ≡ spins
unfolding get_line
get_line_spins fuel c text buf p n = rw (
  ltb-true 0 (length buf) (omega arith),
  line_loop_spins fuel (c ∷ text) [] buf (length buf) 0 0 refl (omega arith) (omega arith)
      (omega arith) p (last_byte-IsPlain c text p.0 p.1),
)
