-- ===== src/Net/Base64/Laws.antt =====
-- The Base64 encoding against a decoder after RFC 4648.
use os_course_lab.Base.{
  Bool-cases, ◌⊎◌, inl, inr, ℕ, zero, suc, ◌+◌, ◌-◌, ◌*◌, ◌/◌, ◌%◌, ◌^◌, ◌≤◌, ◌<◌, ◌≡◌, ◌≢◌, refl,
  ap, ◌∙◌, Bool, true, ◌&&◌, none, some, List, [], ◌∷◌, ◌++◌, ltb, leb, ◌==◌, if◌then◌else◌, arith,
  length, bit_and, bit_or, ==_iff,
}
use os_course_lab.Base.Bits.{bit_and_mask, bit_or_fields}
use os_course_lab.Net.Base64.{char_at, base64_size, group, groups, base64_encode}

-- The value of a character of the alphabet.
unfoldable pub sextet : ℕ → ℕ
sextet c =
    if leb 97 c
    then c - 71
    else if leb 65 c
    then c - 65
    else if leb 48 c
    then c + 4
    else if c == 43
    then 62
    else 63

-- Text without padding, four characters at a time.
unfoldable pub base64_decode : List ℕ → List ℕ
base64_decode (c1 ∷ c2 ∷ c3 ∷ c4 ∷ rest) =
    (sextet c1 * 4 + sextet c2 / 16)
    ∷ (sextet c2 % 16 * 16 + sextet c3 / 4)
    ∷ (sextet c3 % 4 * 64 + sextet c4)
    ∷ base64_decode rest
base64_decode _ = []

abbrev pub AllBytes : List ℕ → Type 0
AllBytes [] = Unit
AllBytes (b ∷ bs) = (b < 256) × AllBytes bs

-- Zero bytes up to a whole number of groups.
unfoldable pub zero_filled : List ℕ → List ℕ
zero_filled [] = []
zero_filled (b1 ∷ []) = b1 ∷ 0 ∷ 0 ∷ []
zero_filled (b1 ∷ b2 ∷ []) = b1 ∷ b2 ∷ 0 ∷ []
zero_filled (b1 ∷ b2 ∷ b3 ∷ rest) = b1 ∷ b2 ∷ b3 ∷ zero_filled rest

abbrev all_below : ℕ → (ℕ → Bool) → Bool
all_below zero f = true
all_below (suc n) f = f n && all_below n f

all_below-at : (n : ℕ) (f : ℕ → Bool) (x : ℕ) → all_below n f ≡ true → x < n → f x ≡ true
all_below-at zero f x h lt = absurd (omega arith)
all_below-at (suc n) f x h lt = ground (arith, all_below-at n f x)

alphabet_checked : all_below 64 (λ x. sextet (char_at x) == x) ≡ true
unfolding sextet char_at
alphabet_checked = refl

sextet-char_at : (x : ℕ) → x < 64 → sextet (char_at x) ≡ x
sextet-char_at x lt =
    (==_iff (sextet (char_at x)) x).0
      (all_below-at 64 (λ y. sextet (char_at y) == y) x alphabet_checked lt)

bytes_eq :
    {a a' b b' c c' : ℕ} (rest : List ℕ)
    → a ≡ a'
    → b ≡ b'
    → c ≡ c'
    → a ∷ b ∷ c ∷ rest ≡ a' ∷ b' ∷ c' ∷ rest
bytes_eq rest e e' e″ = rw (e, e', e″)

-- The four fields of a group as arithmetic.
module _ (b1 b2 b3 : ℕ) (h1 : b1 < 256) (h2 : b2 < 256) (h3 : b3 < 256) where
  second : bit_or (bit_and b1 0x03 * 16) (b2 / 16) ≡ b1 % 4 * 16 + b2 / 16
  second =
      bit_or_fields 4 (bit_and b1 0x03) (bit_and b1 0x03 * 16) (b2 / 16) (omega arith) (omega arith)
      ∙ ap (λ (t : ℕ). t * 16 + b2 / 16) (bit_and_mask 2 3 b1 (omega arith))

  third : bit_or (bit_and b2 0x0F * 4) (b3 / 64) ≡ b2 % 16 * 4 + b3 / 64
  third =
      bit_or_fields 2 (bit_and b2 0x0F) (bit_and b2 0x0F * 4) (b3 / 64) (omega arith) (omega arith)
      ∙ ap (λ (t : ℕ). t * 4 + b3 / 64) (bit_and_mask 4 15 b2 (omega arith))

  fourth : bit_and b3 0x3F ≡ b3 % 64
  fourth = bit_and_mask 6 63 b3 (omega arith)

  -- A group whose padding tests both pass decodes to its three bytes.
  group-decodes :
      (n i : ℕ) (rest : List ℕ)
      → 2 ≤ i
      → i < 2 ^ 64
      → i ≤ n
      → base64_decode (group n i b1 b2 b3 ++ rest) ≡ b1 ∷ b2 ∷ b3 ∷ base64_decode rest
  unfolding base64_decode group
  group-decodes n i rest two small inside =
      let t2 : ltb ((i + 2 ^ 64 - 2) % 2 ^ 64) n ≡ true = ground arith in
      let t1 : ltb ((i + 2 ^ 64 - 1) % 2 ^ 64) n ≡ true = ground arith in
      rw
        (
          t2,
          t1,
          second,
          third,
          fourth,
          sextet-char_at (b1 / 4) (omega arith),
          sextet-char_at (b1 % 4 * 16 + b2 / 16) (omega arith),
          sextet-char_at (b2 % 16 * 4 + b3 / 64) (omega arith),
          sextet-char_at (b3 % 64) (omega arith),
        )
        (bytes_eq (base64_decode rest) (omega arith) (omega arith) (omega arith))

-- The encoding decodes to the input, filled up with zero bytes.
decode-groups :
    (n i : ℕ) (bs : List ℕ)
    → AllBytes bs
    → i + length bs ≡ n
    → n < 2 ^ 63
    → i + length bs ≢ 1
    → base64_decode (groups n i bs) ≡ zero_filled bs
unfolding groups zero_filled group base64_decode
decode-groups n i [] all e small long = unfold base64_decode in refl
decode-groups n i (b1 ∷ []) all e small long =
    group-decodes b1 0 0 all.0 (omega arith) (omega arith) n (i + 1) [] (omega arith) (omega arith)
      (omega arith)
decode-groups n i (b1 ∷ b2 ∷ []) all e small long =
    group-decodes b1 b2 0 all.0 all.1.0 (omega arith) n (i + 2) [] (omega arith) (omega arith)
      (omega arith)
decode-groups n i (b1 ∷ b2 ∷ b3 ∷ rest) all e small long =
    group-decodes b1 b2 b3 all.0 all.1.0 all.1.1.0 n (i + 3) (groups n (i + 3) rest) (omega arith)
      (omega arith) (omega arith)
    ∙ ap (λ t. b1 ∷ b2 ∷ b3 ∷ t)
        (decode-groups n (i + 3) rest all.1.1.1 (omega arith) small (omega arith))

length-groups : (n i : ℕ) (bs : List ℕ) → length (groups n i bs) ≡ (length bs + 2) / 3 * 4
unfolding groups group
length-groups n i [] = refl
length-groups n i (b1 ∷ []) = refl
length-groups n i (b1 ∷ b2 ∷ []) = refl
length-groups n i (b1 ∷ b2 ∷ b3 ∷ rest) = omega (arith, length-groups n (i + 3) rest)

-- For an input below 2 ^ 62 bytes the encoding is refused where the output has no room for it, and
-- else fills, with its terminator, exactly BASE64_SIZE of the input's length, which the output
-- has.
pub length-base64_encode :
    (input : List ℕ) (output_size : ℕ)
    → length input < 2 ^ 62
    → ((output_size < base64_size (length input)) × (base64_encode input output_size ≡ none))
      ⊎ ((text : List ℕ) × (base64_encode input output_size ≡ some text)
          × (length text + 1 ≡ base64_size (length input))
          × (length text + 1 ≤ output_size))
unfolding base64_encode
length-base64_encode input output_size small =
    elim (Bool-cases (ltb output_size (base64_size (length input)))) [
      | inl short ↦ inl (ground arith, rw short refl)
      | inr room ↦
          let count = length-groups (length input) 0 input in
          inr (
            groups (length input) 0 input,
            rw room refl,
            omega (arith, count),
            ground (arith, count),
          )
    ]

zero_filled_whole : (bs : List ℕ) → length bs % 3 ≡ 0 → zero_filled bs ≡ bs
unfolding zero_filled
zero_filled_whole [] e = refl
zero_filled_whole (b1 ∷ []) e = absurd (omega arith)
zero_filled_whole (b1 ∷ b2 ∷ []) e = absurd (omega arith)
zero_filled_whole (b1 ∷ b2 ∷ b3 ∷ rest) e =
    ap (λ t. b1 ∷ b2 ∷ b3 ∷ t) (zero_filled_whole rest (omega arith))

-- Bytes of any number below 2 ^ 62 but one, once encoded with success, decode by the four
-- characters of every group, none of them padding, to the same bytes with zero bytes after them up
-- to a multiple of three.
pub base64_decode-filled :
    (input text : List ℕ) (output_size : ℕ)
    → AllBytes input
    → length input ≢ 1
    → length input < 2 ^ 62
    → base64_encode input output_size ≡ some text
    → base64_decode text ≡ zero_filled input
unfolding base64_encode
base64_decode-filled input text output_size all long small e =
    let it : groups (length input) 0 input ≡ text = ground arith in
    rw (← it) (decode-groups (length input) 0 input all (omega arith) (omega arith) (omega arith))

-- Bytes whose number is a multiple of three below 2 ^ 62 come back from an encoding that
-- succeeded.
pub base64_decode-base64_encode :
    (input text : List ℕ) (output_size : ℕ)
    → AllBytes input
    → length input % 3 ≡ 0
    → length input < 2 ^ 62
    → base64_encode input output_size ≡ some text
    → base64_decode text ≡ input
base64_decode-base64_encode input text output_size all whole small e =
    base64_decode-filled input text output_size all (omega arith) small e
    ∙ zero_filled_whole input whole
