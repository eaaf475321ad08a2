-- ===== src/Base/Bits.antt =====
-- `&` with a mask of low bits and `|` of disjoint fields, as arithmetic. The native operations are
-- known by a recursion on binary digits with fuel, `digits`.
use Prim.Native.Nat.{
  ℕ, zero, suc, ◌+◌, ◌*◌, ◌/◌, ◌%◌, ◌^◌, ◌≤◌, ◌<◌, min, max, bit_and, bit_or, digits,
  bit_and-bitwise, bit_or-bitwise,
}
use mathlib.Core.Path.{◌≡◌, ap, ◌∙◌}
use native.Mathlib.Nat.{pow-suc, one-le-pow}
use native.Mathlib.Omega.{arith}

-- A number `x` is split as `q * 2 ^ k + r`. The high part doubles with the width.
high_part : (k q : ℕ) → q * 2 ^ suc k ≡ 2 * (q * 2 ^ k)
high_part k q = omega (arith, ap (λ (t : ℕ). q * t) (pow-suc 2 k))

-- On any fuel that reaches `x`, the mask keeps the low part.
mask_digits :
    (n k q r x m : ℕ)
    → x ≡ q * 2 ^ k + r
    → r < 2 ^ k
    → m + 1 ≡ 2 ^ k
    → x ≤ n
    → digits (λ b. zero) min n x m ≡ r
mask_digits zero k q r x m e fits mask enough = omega arith
mask_digits (suc n) k q r zero m e fits mask enough = omega arith
mask_digits (suc n) zero q r (suc x) m e fits mask enough = omega (
  arith,
  mask_digits n zero (suc x / 2) 0 (suc x / 2) (m / 2) (omega arith) (omega arith) (omega arith)
      (omega arith),
)
mask_digits (suc n) (suc k) q r (suc x) m e fits mask enough = omega (
  arith,
  high_part k q,
  pow-suc 2 k,
  mask_digits n k q (r / 2) (suc x / 2) (m / 2) (omega (arith, high_part k q))
      (omega (arith, pow-suc 2 k)) (omega (arith, pow-suc 2 k)) (omega arith),
)

-- On any fuel that reaches the high part, the low part is added.
field_digits :
    (n k q r x : ℕ) → x ≡ q * 2 ^ k → r < 2 ^ k → x ≤ n → digits (λ b. b) max n x r ≡ x + r
field_digits zero k q r x e fits enough = omega arith
field_digits (suc n) k q r zero e fits enough = omega arith
field_digits (suc n) zero q r (suc x) e fits enough = omega (
  arith,
  field_digits n zero (suc x / 2) (r / 2) (suc x / 2) (omega arith) (omega arith) (omega arith),
)
field_digits (suc n) (suc k) q r (suc x) e fits enough = omega (
  arith,
  high_part k q,
  field_digits n k q (r / 2) (suc x / 2) (omega (arith, high_part k q)) (omega (arith, pow-suc 2 k))
      (omega arith),
)

-- `a & (2 ^ k - 1)` is the remainder of `a` by `2 ^ k`; the mask is given as `m`.
pub bit_and_mask : (k m a : ℕ) → m + 1 ≡ 2 ^ k → bit_and a m ≡ a % 2 ^ k
bit_and_mask k m a e =
    bit_and-bitwise a m
    ∙ mask_digits a k (a / 2 ^ k) (a % 2 ^ k) a m (omega (arith, one-le-pow k 2))
        (omega (arith, one-le-pow k 2)) e (omega arith)

-- `x | r` is a sum when `x` is a multiple of `2 ^ k` and `r` fits `k` bits.
pub bit_or_fields : (k q x r : ℕ) → x ≡ q * 2 ^ k → r < 2 ^ k → bit_or x r ≡ x + r
bit_or_fields k q x r e fits = bit_or-bitwise x r ∙ field_digits x k q r x e fits (omega arith)
