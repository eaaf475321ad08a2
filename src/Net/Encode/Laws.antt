-- ===== src/Net/Encode/Laws.antt =====
-- The escaped text under percent decoding, its characters and its length.
use os_course_lab.Base.{
  ℕ, ◌+◌, ◌-◌, ◌*◌, ◌/◌, ◌%◌, ◌≤◌, ◌<◌, ◌≡◌, refl, ap, inl, inr, true, false, ◌||◌, List, [], ◌∷◌,
  leb, ◌==◌, if◌then◌else◌, arith, length, Bool-cases,
}
use os_course_lab.Net.Encode.{is_plain, hex_digit, encode}
use os_course_lab.Net.Base64.Laws.{AllBytes}

-- The decoding of RFC 3986: a percent sign and two digits are a byte.
abbrev pub hex_value : ℕ → ℕ
hex_value d = if leb 65 d then d - 55 else d - 48

unfoldable pub percent_decode : List ℕ → List ℕ
percent_decode [] = []
percent_decode (c ∷ []) = c ∷ []
percent_decode (c ∷ d ∷ []) = c ∷ d ∷ []
percent_decode (c ∷ d ∷ e ∷ rest) =
    let plain = percent_decode (d ∷ e ∷ rest) in
    let escaped = percent_decode rest in
    if c == 37 then (hex_value d * 16 + hex_value e) ∷ escaped else c ∷ plain

percent_decode-plain :
    (c : ℕ) (rest : List ℕ)
    → (c == 37) ≡ false
    → percent_decode (c ∷ rest) ≡ c ∷ percent_decode rest
unfolding percent_decode
percent_decode-plain c [] e = refl
percent_decode-plain c (d ∷ []) e = refl
percent_decode-plain c (d ∷ b ∷ rest) e = rw e refl

hex_value-hex_digit : (v : ℕ) → v < 16 → hex_value (hex_digit v) ≡ v
hex_value-hex_digit v h = ground arith

-- A text of bytes comes back from its escaped form by percent decoding.
pub percent_decode-encode : (src : List ℕ) → AllBytes src → percent_decode (encode src) ≡ src
unfolding encode percent_decode
percent_decode-encode [] all = refl
percent_decode-encode (c ∷ src) all = elim (Bool-cases (is_plain c)) [
  | inl plain ↦
      rw
        (plain, percent_decode-plain c (encode src) (ground arith), percent_decode-encode src all.1)
        refl
  | inr other ↦
      rw
        (
          other,
          hex_value-hex_digit (c / 16) (omega (arith, all.0)),
          hex_value-hex_digit (c % 16) (omega arith),
          percent_decode-encode src all.1,
        )
        (ap (λ (t : ℕ). t ∷ src) (omega arith))
]

-- Letters, digits and percent signs alone.
abbrev pub IsSafeText : List ℕ → Type 0
IsSafeText [] = Unit
IsSafeText (c ∷ rest) = ((is_plain c || (c == 37)) ≡ true) × IsSafeText rest

-- The escaped form of a text of bytes has letters, digits and percent signs alone, and is at most
-- three times as long.
pub encode-IsSafeText :
    (src : List ℕ) → AllBytes src → IsSafeText (encode src) × (length (encode src) ≤ 3 * length src)
unfolding encode
encode-IsSafeText [] all = (tt, omega arith)
encode-IsSafeText (c ∷ src) all =
    let (safe, short) = encode-IsSafeText src all.1 in
    elim (Bool-cases (is_plain c)) [
      | inl plain ↦ rw plain ((ground arith, safe), omega arith)
      | inr other ↦
          rw other ((refl, (ground (arith, all.0), (ground (arith, all.0), safe))), omega arith)
    ]
