-- ===== src/Base/Text.antt =====
-- ASCII texts as lists of bytes, and numbers in decimal as `snprintf` prints them.
use Prim.Native.Nat.{ℕ, zero, suc, ◌+◌, ◌-◌, ◌*◌, ◌/◌, ◌%◌, ◌^◌, ◌≤◌, ◌<◌}
use Prim.Native.String.{String}
use Prim.Native.Char.{code}
use mathlib.Core.Path.{◌≡◌, refl}
use mathlib.Core.List.{List, [], ◌∷◌}
use native.Mathlib.Nat.{pow-suc}
use native.Mathlib.Omega.{arith}
use os_course_lab.Base.Tests.{ltb, leb, if◌then◌else◌}
use os_course_lab.Base.Lists.{length}

abbrev pub codes : String → List ℕ
codes String.[] = []
codes (String.◌∷◌ c s) = code c ∷ codes s

-- The last `k` digits of a number, in front of `out`, without leading zeros.
unfoldable pub digits : (k n : ℕ) → List ℕ → List ℕ
digits zero n out = out
digits (suc k) n out =
    let more = digits k (n / 10) ((b'0' + n % 10) ∷ out) in
    if ltb n 10 then (b'0' + n) ∷ out else more

-- `%llu` of a 64-bit word, which has twenty digits at most.
unfoldable pub decimal : ℕ → List ℕ
unfolding digits
decimal n = digits 20 n []

-- `%lld` of a 64-bit pattern
unfoldable pub signed_decimal : ℕ → List ℕ
unfolding decimal
signed_decimal v = if leb (2 ^ 63) v then b'-' ∷ decimal (2 ^ 64 - v) else decimal v

-- The number that digits spell behind `n`.
unfoldable pub value_from : ℕ → List ℕ → ℕ
value_from n [] = n
value_from n (c ∷ s) = value_from (n * 10 + (c - b'0')) s

value_from-digits :
    (k n : ℕ) (out : List ℕ) → n < 10 ^ k → value_from 0 (digits k n out) ≡ value_from n out
unfolding value_from digits
value_from-digits zero n out h = let it : n ≡ 0 = omega arith in rw it refl
value_from-digits (suc k) n out h =
    ground
      (arith, value_from-digits k (n / 10) ((b'0' + n % 10) ∷ out) (omega (arith, pow-suc 10 k)))

pub value_from-decimal : (n : ℕ) → n < 2 ^ 64 → value_from 0 (decimal n) ≡ n
unfolding decimal value_from
value_from-decimal n h = value_from-digits 20 n [] (omega arith)

length-digits : (k n : ℕ) (out : List ℕ) → length (digits k n out) ≤ k + length out
unfolding digits
length-digits zero n out = omega arith
length-digits (suc k) n out = ground (arith, length-digits k (n / 10) ((b'0' + n % 10) ∷ out))

pub length-decimal : (n : ℕ) → length (decimal n) ≤ 20
unfolding decimal
length-decimal n = omega (arith, length-digits 20 n [])

pub length-signed_decimal : (v : ℕ) → length (signed_decimal v) ≤ 21
unfolding signed_decimal
length-signed_decimal v = ground (arith, length-decimal v, length-decimal (2 ^ 64 - v))
