-- ===== src/Net/Decode/Fields.antt =====
-- The fields of the format: little-endian numbers, one after another.
use os_course_lab.Base.{
  sym, ℕ, zero, suc, ◌+◌, ◌/◌, ◌%◌, ◌^◌, ◌≤◌, ◌<◌, ◌≡◌, refl, ap, true, List, [], ◌∷◌, ◌++◌, done,
  leb, arith, length, drop, length-append, take-append_left, take_all,
}
use native.Mathlib.Nat.{pow-suc}
use os_course_lab.Base.Buffers.{load_bytes}
use os_course_lab.Interface.{NodeType, dir, file, unknown}
use os_course_lab.Net.Decode.{le_value, load_le, node_type}

-- A number in `n` bytes, the low byte first.
unfoldable pub le_bytes : (n v : ℕ) → List ℕ
le_bytes zero v = []
le_bytes (suc n) v = (v % 256) ∷ le_bytes n (v / 256)

pub length-le_bytes : (n v : ℕ) → length (le_bytes n v) ≡ n
unfolding le_bytes
length-le_bytes zero v = refl
length-le_bytes (suc n) v = ap suc (length-le_bytes n (v / 256))

pub le_value-le_bytes : (n v : ℕ) → v < 256 ^ n → le_value (le_bytes n v) ≡ v
unfolding le_value le_bytes
le_value-le_bytes zero v h = omega arith
le_value-le_bytes (suc n) v h =
    omega (arith, le_value-le_bytes n (v / 256) (omega (arith, pow-suc 256 n)))

-- Reading where a buffer begins, and past its first part.
pub load_bytes-here :
    (xs rest : List ℕ) (n : ℕ) → n ≡ length xs → load_bytes (xs ++ rest) 0 n ≡ done xs
unfolding load_bytes
load_bytes-here xs rest n e =
    let fits : leb (0 + n) (length (xs ++ rest)) ≡ true = ground (arith, length-append xs rest) in
    rw (fits, take-append_left n xs rest (omega arith), take_all n xs (omega arith)) refl

drop-skip :
    (front xs : List ℕ) (at at' : ℕ) → at' ≡ length front + at → drop at' (front ++ xs) ≡ drop at xs
drop-skip [] xs at at' e = let same : at' ≡ at = omega arith in rw same refl
drop-skip (b ∷ front) xs at zero e = absurd (omega arith)
drop-skip (b ∷ front) xs at (suc at') e = drop-skip front xs at at' (omega arith)

pub load_bytes-skip :
    (front xs : List ℕ) (at at' n : ℕ)
    → at' ≡ length front + at
    → load_bytes (front ++ xs) at' n ≡ load_bytes xs at n
unfolding load_bytes
load_bytes-skip front xs at at' n e =
    let fits : leb (at' + n) (length (front ++ xs)) ≡ leb (at + n) (length xs) =
      ground (arith, length-append front xs) in
    rw (fits, drop-skip front xs at at' e) refl

pub load_le-here :
    (n v : ℕ) (rest : List ℕ) → v < 256 ^ n → load_le (le_bytes n v ++ rest) 0 n ≡ done v
unfolding load_le
load_le-here n v rest h =
    rw (load_bytes-here (le_bytes n v) rest n (sym (length-le_bytes n v)), le_value-le_bytes n v h)
      refl

pub load_le-last : (n v : ℕ) → v < 256 ^ n → load_le (le_bytes n v) 0 n ≡ done v
unfolding load_le load_bytes
load_le-last n v h =
    let fits : leb (0 + n) (length (le_bytes n v)) ≡ true = ground (arith, length-le_bytes n v) in
    rw
      (
        fits,
        take_all n (le_bytes n v) (omega (arith, length-le_bytes n v)),
        le_value-le_bytes n v h,
      )
      refl

pub load_le-skip :
    (front xs : List ℕ) (at at' n : ℕ)
    → at' ≡ length front + at
    → load_le (front ++ xs) at' n ≡ load_le xs at n
unfolding load_le
load_le-skip front xs at at' n e = rw (load_bytes-skip front xs at at' n e) refl

-- The number that stands for a type, and the types that fit the 16 bits.
abbrev pub type_code : NodeType → ℕ
type_code dir = 0
type_code file = 1
type_code (unknown v) = v

abbrev pub IsWireType : NodeType → Type 0
IsWireType (unknown v) = (2 ≤ v) × (v < 2 ^ 16)
IsWireType _ = Unit

pub node_type-type_code :
    (t : NodeType) → IsWireType t → (node_type (type_code t) ≡ t) × (type_code t < 256 ^ 2)
unfolding node_type
node_type-type_code dir h = (refl, omega arith)
node_type-type_code file h = (refl, omega arith)
node_type-type_code (unknown v) h = (ground (arith, h.0), omega (arith, h.1))

-- Past a number of `k` bytes.
pub load_le-past :
    (k v : ℕ) (xs : List ℕ) (at at' n : ℕ)
    → at' ≡ k + at
    → load_le (le_bytes k v ++ xs) at' n ≡ load_le xs at n
load_le-past k v xs at at' n e =
    load_le-skip (le_bytes k v) xs at at' n (omega (arith, length-le_bytes k v))
