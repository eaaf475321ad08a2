-- ===== src/Net/Encode.antt =====
-- `encode` of source/http.c, the escaping of the arguments of a request. A character is its byte.
pub mod Laws
use os_course_lab.Base.{ℕ, ◌+◌, ◌/◌, ◌%◌, Bool, ◌&&◌, ◌||◌, List, [], ◌∷◌, ltb, leb, if◌then◌else◌}

-- The test on `*src`; the bytes from 128 on are negative as `char`, and no range has them.
abbrev pub is_plain : ℕ → Bool
is_plain c = (leb 48 c && leb c 57) || (leb 97 c && leb c 122) || (leb 65 c && leb c 90)

-- A digit of `%02X`
abbrev pub hex_digit : ℕ → ℕ
hex_digit v = if ltb v 10 then 48 + v else 55 + v

-- `dst` up to its terminator
unfoldable pub encode : List ℕ → List ℕ
encode [] = []
encode (c ∷ src) =
    let rest = encode src in
    if is_plain c then c ∷ rest else 37 ∷ hex_digit (c / 16) ∷ hex_digit (c % 16) ∷ rest
