-- ===== src/Epoll/Line/Laws.antt =====
-- The lines that `get_line` of server/server.h reads.
use face_perception.Common.{
  ℕ, ◌+◌, ◌≤◌, ◌<◌, ◌≡◌, ◌≢◌, Bytes, ◌∷◌, ◌++◌, arith, ltb-true, ==_ne, All, length, drop,
}
use face_perception.Outcome.{done}
use face_perception.Http.Line.{byte, Input, arriving, line_loop}
use face_perception.Http.Line.Laws.{IsPlain, IsEnd, stored, line_loop_lem, end_line-stored}
use face_perception.Http.Line as HttpLine
use face_perception.Epoll.Line.{end_line, get_line}

end_line-agrees :
    (buf : Bytes) (i ch : ℕ) (rest : Input)
    → ch ≢ 0
    → end_line (buf, i, ch, rest) ≡ HttpLine.end_line (buf, i, ch, rest)
unfolding end_line HttpLine.end_line
end_line-agrees buf i ch rest h = rw (==_ne ch 0 h)

-- A line that fits is read whole, and the byte behind its end is read with it.
pub get_line_lem :
    (fuel n : ℕ) (buf text : Bytes) (e c : ℕ) (rest : Input)
    → length buf ≡ n
    → All IsPlain text
    → IsEnd e
    → c ≢ 0
    → length text + 2 ≤ n
    → length text < fuel
    → get_line fuel buf n (arriving text ++ byte e ∷ byte c ∷ rest)
      ≡ done (length text + 1, stored buf text, rest)
unfolding get_line
get_line_lem fuel n buf text e c rest len p end h fits enough =
    rw
      (
        ← len,
        ltb-true 0 (length buf) (omega arith),
        line_loop_lem fuel buf text e c rest p end (omega arith) enough,
        end_line-agrees (text ++ drop (length text) buf) (length text) c rest h,
      )
      (end_line-stored buf text c rest h (omega arith))
