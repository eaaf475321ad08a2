-- ===== src/Net/Storage/Write/Chunk.antt =====
-- The data of one chunk: its encoding, and what a server decodes.
use os_course_lab.Base.{
  ℕ, zero, suc, ◌+◌, ◌*◌, ◌%◌, ◌^◌, ◌≤◌, ◌<◌, ◌≡◌, ◌≢◌, refl, ap, true, some, List, [], ◌∷◌, ◌++◌,
  done, ltb, leb, length, take, drop, replicate, arith, Bool-cases, ◌⊎◌, inl, inr,
}
use os_course_lab.Base.Buffers.{store_bytes}
use os_course_lab.Base.Splice.{splice}
use os_course_lab.Net.Base64.{base64_size, base64_encode}
use os_course_lab.Net.Base64.Laws.{
  AllBytes, base64_decode, zero_filled, length-base64_encode, base64_decode-filled,
}
use os_course_lab.Net.Base64.Chars.{AllBytes-base64_encode}
use os_course_lab.Net.Encode.{encode}
use os_course_lab.Net.Encode.Laws.{percent_decode, percent_decode-encode, encode-IsSafeText}
use os_course_lab.Net.Decode.Fields.{le_bytes}
use os_course_lab.Net.Storage.{response_memory, encode_into}
use os_course_lab.Net.Storage.Write.{chunk_size}

take-zero_filled : (bs : List ℕ) → take (length bs) (zero_filled bs) ≡ bs
unfolding zero_filled
take-zero_filled [] = refl
take-zero_filled (b1 ∷ []) = refl
take-zero_filled (b1 ∷ b2 ∷ []) = refl
take-zero_filled (b1 ∷ b2 ∷ b3 ∷ rest) = ap (λ t. b1 ∷ b2 ∷ b3 ∷ t) (take-zero_filled rest)

pub answer_memory :
    (n : ℕ) → response_memory 256 (le_bytes 8 n) ≡ done (le_bytes 8 n ++ replicate 248 0)
unfolding le_bytes store_bytes splice
answer_memory n = refl

-- What a server decodes from the argument `data` of a chunk.
pub chunk-decodes :
    (bytes text : List ℕ) (size : ℕ)
    → AllBytes bytes
    → length bytes ≢ 1
    → length bytes < 2 ^ 62
    → base64_encode bytes size ≡ some text
    → take (length bytes) (base64_decode (percent_decode (encode text))) ≡ bytes
chunk-decodes bytes text size all long small e =
    let plain = percent_decode-encode text (AllBytes-base64_encode bytes text size e) in
    let whole = base64_decode-filled bytes text size all long small e in
    rw (plain, whole) (take-zero_filled bytes)

-- The escaped text of a chunk fits the block that is allocated for it.
pub encode_into-fits :
    (text : List ℕ) (n : ℕ)
    → AllBytes text
    → length text + 1 ≡ base64_size n
    → n ≤ 4096
    → encode_into ((base64_size n * 3) % 2 ^ 64) text ≡ done (encode text)
encode_into-fits text n all size small =
    let (safe, short) = encode-IsSafeText text all in
    let fits : leb (length (encode text) + 1) ((base64_size n * 3) % 2 ^ 64) ≡ true =
      ground arith in
    rw fits refl

pub encoded_text :
    (bytes : List ℕ) (n : ℕ)
    → length bytes ≡ n
    → n ≤ 4096
    → (text : List ℕ) × (base64_encode bytes (base64_size n) ≡ some text)
      × (length text + 1 ≡ base64_size n)
encoded_text bytes n same small = elim (length-base64_encode bytes (base64_size n) (omega arith)) [
  | inl (short, none_made) ↦
      absurd
        (let it : base64_size (length bytes) ≡ base64_size n = ap base64_size same in omega arith)
  | inr (text, made, size, fits) ↦ (text, made, rw (← same) size)
]

pub AllBytes-take : (n : ℕ) (bs : List ℕ) → AllBytes bs → AllBytes (take n bs)
AllBytes-take zero bs all = tt
AllBytes-take (suc n) [] all = tt
AllBytes-take (suc n) (b ∷ bs) all = (all.0, AllBytes-take n bs all.1)

pub AllBytes-drop : (n : ℕ) (bs : List ℕ) → AllBytes bs → AllBytes (drop n bs)
AllBytes-drop zero bs all = all
AllBytes-drop (suc n) [] all = tt
AllBytes-drop (suc n) (b ∷ bs) all = AllBytes-drop n bs all.1

pub chunk_size-cases :
    (r : ℕ) → ((chunk_size r ≡ 4096) × (4096 < r)) ⊎ ((chunk_size r ≡ r) × (r ≤ 4096))
chunk_size-cases r = elim (Bool-cases (ltb 4096 r)) [
  | inl more ↦ inl (ground arith, ground arith)
  | inr last ↦ inr (ground arith, ground arith)
]
