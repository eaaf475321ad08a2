-- ===== src/Net/Base64.antt =====
-- source/impl/net/base64.c and base64.h. A character is its code.
pub mod Laws
pub mod Chars
use os_course_lab.Base.{
  ℕ, ◌+◌, ◌-◌, ◌*◌, ◌/◌, ◌%◌, ◌^◌, Option, none, some, List, [], ◌∷◌, ◌++◌, ltb, if◌then◌else◌,
  length, get_elem?, bit_and, bit_or,
}

-- The string constant, A to Z, a to z, 0 to 9, + and /.
abbrev pub base64_chars : List ℕ
base64_chars =
    65 ∷ 66 ∷ 67 ∷ 68 ∷ 69 ∷ 70 ∷ 71 ∷ 72 ∷ 73 ∷ 74 ∷ 75 ∷ 76 ∷ 77 ∷ 78 ∷ 79 ∷ 80 ∷ 81 ∷ 82 ∷ 83
    ∷ 84 ∷ 85 ∷ 86 ∷ 87 ∷ 88 ∷ 89 ∷ 90 ∷ 97 ∷ 98 ∷ 99 ∷ 100 ∷ 101 ∷ 102 ∷ 103 ∷ 104 ∷ 105 ∷ 106
    ∷ 107 ∷ 108 ∷ 109 ∷ 110 ∷ 111 ∷ 112 ∷ 113 ∷ 114 ∷ 115 ∷ 116 ∷ 117 ∷ 118 ∷ 119 ∷ 120 ∷ 121 ∷ 122
    ∷ 48 ∷ 49 ∷ 50 ∷ 51 ∷ 52 ∷ 53 ∷ 54 ∷ 55 ∷ 56 ∷ 57 ∷ 43 ∷ 47 ∷ []

-- `base64_chars[x]`: past the 64 characters stands the terminator.
abbrev pub or_terminator : Option ℕ → ℕ
or_terminator none = 0
or_terminator (some c) = c

unfoldable pub char_at : ℕ → ℕ
char_at x = or_terminator (get_elem? base64_chars x)

-- BASE64_SIZE of a `size_t`
abbrev pub base64_size : ℕ → ℕ
base64_size len = (((len + 2) % 2 ^ 64 / 3) * 4 + 1) % 2 ^ 64

-- '='
abbrev pub pad : ℕ
pad = 61

-- The four characters of one round of the loop, made after `i` has moved past its bytes.
unfoldable pub group : (input_len i byte1 byte2 byte3 : ℕ) → List ℕ
group input_len i byte1 byte2 byte3 =
    char_at (byte1 / 4)
    ∷ char_at (bit_or (bit_and byte1 0x03 * 16) (byte2 / 16))
    ∷ (if ltb ((i + 2 ^ 64 - 2) % 2 ^ 64) input_len
        then char_at (bit_or (bit_and byte2 0x0F * 4) (byte3 / 64))
        else pad)
    ∷ (if ltb ((i + 2 ^ 64 - 1) % 2 ^ 64) input_len then char_at (bit_and byte3 0x3F) else pad)
    ∷ []

-- The loop, on what `input` holds from `i` on.
unfoldable pub groups : (input_len i : ℕ) → List ℕ → List ℕ
groups input_len i [] = []
groups input_len i (byte1 ∷ []) = group input_len (i + 1) byte1 0 0
groups input_len i (byte1 ∷ byte2 ∷ []) = group input_len (i + 2) byte1 byte2 0
groups input_len i (byte1 ∷ byte2 ∷ byte3 ∷ rest) =
    group input_len (i + 3) byte1 byte2 byte3 ++ groups input_len (i + 3) rest

-- The characters before the terminator, whose number is returned, or nothing where the call
-- returns -1.
unfoldable pub base64_encode : List ℕ → (output_size : ℕ) → Option (List ℕ)
base64_encode input output_size =
    if ltb output_size (base64_size (length input))
    then none
    else some (groups (length input) 0 input)
