-- ===== src/Attendance/Show.antt =====
-- server/server_http.h: `show`, which writes the roster to the console as a table.
use face_perception.Common.{
  ℕ, ◌+◌, ◌-◌, ◌*◌, ◌/◌, ◌%◌, ◌^◌, ◌&&◌, ◌||◌, Bytes, String, List, [], ◌∷◌, ◌++◌, codes, ltb, ◌==◌,
  if◌then◌else◌, length,
}
use Prim.Native.Char.{code}
use face_perception.Common.Int.{pos}
use face_perception.Attendance.Node.{UserNode}
use face_perception.Attendance.Report.{digits, decimal}
use face_perception.Attendance.Roster.{Roster}

-- The bytes of a character of the source, which is in UTF-8.
abbrev utf8_char : ℕ → Bytes
utf8_char c =
    if ltb c 128
    then c ∷ []
    else (if ltb c 2048
        then (192 + c / 64) ∷ (128 + c % 64) ∷ []
        else (224 + c / 4096) ∷ (128 + c / 64 % 64) ∷ (128 + c % 64) ∷ [])

abbrev utf8 : String → Bytes
utf8 String.[] = []
utf8 (String.◌∷◌ c s) = utf8_char (code c) ++ utf8 s

-- A number without the zeros at its end.
unfoldable strip_zeros : Bytes → Bytes
strip_zeros [] = []
strip_zeros (c ∷ cs) =
    let rest = strip_zeros cs in if c == b'0' && length rest == 0 then [] else c ∷ rest

-- The digits behind the point, if any.
abbrev fraction : Bytes → Bytes
fraction [] = []
fraction (c ∷ cs) = b'.' ∷ c ∷ cs

abbrev point_behind_first : Bytes → Bytes
point_behind_first [] = []
point_behind_first (c ∷ cs) = c ∷ fraction (strip_zeros cs)

-- Six digits `q` and the exponent `x`; rounding may have carried into a seventh digit.
unfoldable scientific : ℕ → ℕ → Bytes
unfolding digits strip_zeros
scientific q x =
    if q == 1000000
    then codes "1e+" ++ ((b'0' + (x + 1) / 10) ∷ (b'0' + (x + 1) % 10) ∷ [])
    else point_behind_first (digits 6 q [])
      ++ (codes "e+" ++ ((b'0' + x / 10) ∷ (b'0' + x % 10) ∷ []))

-- `n / unit`, rounded to the nearest, and to the even one of two that are equally near.
unfoldable round_even : ℕ → ℕ → ℕ
round_even n unit =
    let q = n / unit in
    if ltb unit (2 * (n % unit)) || (2 * (n % unit) == unit && q % 2 == 1) then q + 1 else q

-- `cout << d` for a `double` that is a whole number below 10 ^ 16: six significant digits.
unfoldable pub double_text : ℕ → Bytes
unfolding digits scientific round_even
double_text n =
    let all = digits 16 n [] in
    if ltb n 1000000
    then all
    else scientific (round_even n (10 ^ (length all - 6))) (length all - 1)

-- What one `cout << a << b << ...` writes.
abbrev joined : List Bytes → Bytes
joined [] = []
joined (t ∷ ts) = t ++ joined ts

unfoldable pub show_head : Bytes
show_head = utf8 "姓名\t编号\t签到时间\t\t\t离开时间\t\t\t计时间\n"

-- The body of the loop.
unfoldable pub show_row : UserNode → Bytes
unfolding decimal double_text
show_row cur = joined (
    cur.name
    ∷ codes "\t"
    ∷ cur.id
    ∷ codes "\t"
    ∷ cur.arrive_time
    ∷ codes "\t"
    ∷ cur.leave_time
    ∷ codes "\t"
    ∷ double_text cur.days
    ∷ utf8 "天"
    ∷ decimal (pos cur.hour)
    ∷ utf8 "时"
    ∷ decimal (pos cur.min)
    ∷ utf8 "分"
    ∷ decimal cur.sec
    ∷ utf8 "秒\n"
    ∷ [])

abbrev pub show_rows : List UserNode → Bytes
show_rows [] = []
show_rows (cur ∷ v) = show_row cur ++ show_rows v

abbrev pub show : Roster → Bytes
show r = show_head ++ show_rows r.v
