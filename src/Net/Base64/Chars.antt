-- ===== src/Net/Base64/Chars.antt =====
-- The characters of the encoding are bytes.
use os_course_lab.Base.{
  ℕ, zero, suc, ◌+◌, ◌<◌, ◌≡◌, subst, true, false, Bool-cases, inl, inr, Bool, some, List, [], ◌∷◌,
  ◌++◌, ltb, if◌then◌else◌, arith, get_elem?, length,
}
use os_course_lab.Net.Base64.{
  base64_chars, or_terminator, char_at, pad, group, groups, base64_size, base64_encode,
}
use os_course_lab.Net.Base64.Laws.{AllBytes}

AllBytes-get_elem? : (xs : List ℕ) (i : ℕ) → AllBytes xs → or_terminator (get_elem? xs i) < 256
AllBytes-get_elem? [] i all = omega arith
AllBytes-get_elem? (x ∷ xs) zero all = all.0
AllBytes-get_elem? (x ∷ xs) (suc i) all = AllBytes-get_elem? xs i all.1

char_at-byte : (x : ℕ) → char_at x < 256
unfolding char_at
char_at-byte x = AllBytes-get_elem? base64_chars x (omega arith)

char_or_pad : (b : Bool) (x : ℕ) → (if b then char_at x else pad) < 256
char_or_pad true x = char_at-byte x
char_or_pad false x = omega arith

AllBytes-group :
    (n i b1 b2 b3 : ℕ) (rest : List ℕ) → AllBytes rest → AllBytes (group n i b1 b2 b3 ++ rest)
unfolding group
AllBytes-group n i b1 b2 b3 rest all =
    (char_at-byte _, (char_at-byte _, (char_or_pad _ _, (char_or_pad _ _, all))))

AllBytes-groups : (n i : ℕ) (bs : List ℕ) → AllBytes (groups n i bs)
unfolding groups group
AllBytes-groups n i [] = tt
AllBytes-groups n i (b1 ∷ []) = AllBytes-group n (i + 1) b1 0 0 [] tt
AllBytes-groups n i (b1 ∷ b2 ∷ []) = AllBytes-group n (i + 2) b1 b2 0 [] tt
AllBytes-groups n i (b1 ∷ b2 ∷ b3 ∷ rest) =
    AllBytes-group n (i + 3) b1 b2 b3 (groups n (i + 3) rest) (AllBytes-groups n (i + 3) rest)

pub AllBytes-base64_encode :
    (input text : List ℕ) (output_size : ℕ)
    → base64_encode input output_size ≡ some text
    → AllBytes text
unfolding base64_encode
AllBytes-base64_encode input text output_size e =
    elim (Bool-cases (ltb output_size (base64_size (length input)))) [
      | inl short ↦ absurd (ground (arith, short, e))
      | inr room ↦
          let it : groups (length input) 0 input ≡ text = ground (arith, room, e) in
          subst AllBytes it (AllBytes-groups (length input) 0 input)
    ]
