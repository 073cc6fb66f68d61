-- ===== src/Strings.antt =====
-- test.cpp: the program of its first lines, which tries the strings of C++; the others that it holds
-- are commented out.
use face_perception.Common.{Bytes, ◌++◌, codes, ◌≡◌, refl}
use face_perception.Outcome.{Outcome, done, ◌>>=◌}
use face_perception.Memory.{literal, c_text}

-- What it prints.
unfoldable main : Outcome Bytes
main = do
  pstr ← c_text (literal "zhoufei")
  let tmp = codes "" ++ pstr
  done (pstr ++ (codes "\n" ++ (tmp ++ codes "\n")))

prints_twice : main ≡ done (codes "zhoufei\nzhoufei\n")
unfolding main c_text
prints_twice = refl
