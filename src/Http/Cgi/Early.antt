-- ===== src/Http/Cgi/Early.antt =====
-- What a POST request comes to whose connection is closed before the whole body has come.
use face_perception.Common.{ℕ, Bytes, [], ◌∷◌}
use face_perception.Http.World.{World}

-- The last byte that came, or `ch` if none did.
abbrev pub last_byte : ℕ → Bytes → ℕ
last_byte ch [] = ch
last_byte ch (c ∷ body) = last_byte c body
