-- ===== src/Net/Http/Response/Lines.antt =====
-- The headers of a response: the loop line by line, and its fuel.
use os_course_lab.Base.{
  ℕ, zero, suc, ◌≤◌, ◌<◌, ◌≡◌, ◌≢◌, refl, ap, Bool, true, false, Option, none, some, List, [], ◌∷◌,
  ◌++◌, Run, done, fault, ◌>>=◌, ◌==◌, if◌then◌else◌, length, arith, Bool-cases, inl, inr,
  length-append,
}
use mathlib.Core.Path.{fun_ext}
use os_course_lab.Net.Http.Response.{
  Sep, prepend, strsep, header_memory, is_empty, starts_with, content_length, Headers, body,
  read_length, read_header, headers,
}

-- The room that a string leaves for further rounds.
abbrev pub rounds : Option (List ℕ) → ℕ
rounds none = 0
rounds (some memory) = suc (length memory)

prepend-done :
    (c : ℕ) (m : Run Sep) (s : Sep)
    → prepend c m ≡ done s
    → (t : Sep) × (m ≡ done t) × (s.rest ≡ t.rest)
prepend-done c (done t) s e = (t, refl, ground arith)
prepend-done c fault s e = absurd (ground arith)

strsep_shorter :
    (delim : ℕ) (memory : List ℕ) (s : Sep)
    → strsep delim memory ≡ done s
    → rounds s.rest ≤ length memory
unfolding strsep
strsep_shorter delim [] s e = absurd (ground arith)
strsep_shorter delim (c ∷ memory) s e = elim (Bool-cases (c == 0)) [
  | inl ends ↦ let it : s.rest ≡ none = ground (arith, e, ends) in rw it (omega arith)
  | inr more ↦ elim (Bool-cases (c == delim)) [
    | inl here ↦
        let it : s.rest ≡ some memory = ground (arith, e, more, here) in rw it (omega arith)
    | inr later ↦
        let (t, found, same) = prepend-done c (strsep delim memory) s (rw (more, later) at e) in
        rw same (omega (arith, strsep_shorter delim memory t found))
  ]
]

>>=-congr {ℓ κ} :
    {A : Type ℓ} {B : Type κ} (m : Run A) (f g : A → Run B)
    → ((a : A) → m ≡ done a → f a ≡ g a)
    → (m >>= f) ≡ (m >>= g)
>>=-congr (done a) f g h = h a refl
>>=-congr fault f g h = refl

module _ (kstrtoint : List ℕ → Option ℕ) where
  -- With fuel for every byte of the string one more round changes nothing.
  pub headers_fuel :
      (fuel : ℕ) (buffer : Option (List ℕ)) (len : ℕ)
      → rounds buffer < fuel
      → headers kstrtoint (suc fuel) buffer len ≡ headers kstrtoint fuel buffer len
  unfolding headers
  headers_fuel zero buffer len h = absurd (omega arith)
  headers_fuel (suc fuel) none len h = refl
  headers_fuel (suc fuel) (some memory) len h = >>=-congr (strsep 13 memory) _ _ λ s e.
      let less = strsep_shorter 13 memory s e in
      ap (λ next. is_empty (header_memory s.token s.after) >>= read_header kstrtoint next s len)
        (fun_ext (λ len'. headers_fuel fuel s.rest len' (omega arith)))

-- A line of text: neither a terminator nor a carriage return.
abbrev pub IsLine : List ℕ → Type 0
IsLine [] = Unit
IsLine (c ∷ line) = (c ≢ 0) × (c ≢ 13) × IsLine line

pub strsep-line :
    (line rest : List ℕ)
    → IsLine line
    → strsep 13 (line ++ (13 ∷ rest))
      ≡ done (record { token = line; rest = some rest; after = rest })
unfolding strsep
strsep-line [] rest h = refl
strsep-line (c ∷ line) rest h =
    let nz : (c == 0) ≡ false = ground (arith, h.0) in
    let nr : (c == 13) ≡ false = ground (arith, h.1) in rw (nz, nr, strsep-line line rest h.2) refl

-- Whether a line begins with a key.
unfoldable pub is_prefix : (key line : List ℕ) → Bool
is_prefix [] line = true
is_prefix (k ∷ key) [] = false
is_prefix (k ∷ key) (c ∷ line) = let later = is_prefix key line in if k == c then later else false

starts_with-is_prefix :
    (key line rest : List ℕ)
    → IsLine key
    → starts_with key (line ++ (0 ∷ rest)) ≡ done (is_prefix key line)
unfolding starts_with is_prefix
starts_with-is_prefix [] line rest h = refl
starts_with-is_prefix (k ∷ key) [] rest h =
    let nz : (k == 0) ≡ false = ground (arith, h.0) in rw nz refl
starts_with-is_prefix (k ∷ key) (c ∷ line) rest h =
    ground (arith, starts_with-is_prefix key line rest h.2)

-- A header that is no Content-Length.
pub record IsOther (line : List ℕ) : Type 0 where
  pub line_text : IsLine line
  pub first : line ≢ []
  pub other : is_prefix content_length line ≡ false

abbrev pub AllOther : List (List ℕ) → Type 0
AllOther [] = Unit
AllOther (line ∷ lines) = IsOther line × AllOther lines

-- Headers as they stand after the carriage return of the line before, and what follows the last.
unfoldable pub header_lines : List (List ℕ) → List ℕ → List ℕ
header_lines [] tail = tail
header_lines (line ∷ lines) tail = 10 ∷ (line ++ (13 ∷ header_lines lines tail))

module _ (kstrtoint : List ℕ → Option ℕ) where
  -- From here on the loop ends with `h`, on any fuel that reaches the end of the string.
  abbrev pub Reads : List ℕ → (len : ℕ) → Headers → Type 0
  Reads memory len h =
      (fuel : ℕ) → suc (length memory) < fuel → headers kstrtoint fuel (some memory) len ≡ done h

  pub Reads-end : (rest : List ℕ) (len : ℕ) → Reads (10 ∷ 13 ∷ rest) len (body (some rest) len)
  unfolding headers
  Reads-end rest len zero h = absurd (omega arith)
  Reads-end rest len (suc fuel) h = rw (strsep-line (10 ∷ []) rest (omega arith)) refl

  pub Reads-other :
      (line rest : List ℕ) (len : ℕ) (h : Headers)
      → IsOther line
      → Reads rest len h
      → Reads (10 ∷ (line ++ (13 ∷ rest))) len h
  unfolding headers read_length
  Reads-other line rest len h o ih zero enough = absurd (omega arith)
  Reads-other [] rest len h o ih (suc fuel) enough = absurd (o.first refl)
  Reads-other (c ∷ line) rest len h o ih (suc fuel) enough =
      let (nz, nr, more) = o.line_text in
      let whole : IsLine (10 ∷ c ∷ line) = (omega arith, omega arith, o.line_text) in
      let alive : (c == 0) ≡ false = ground arith in
      rw
        (
          strsep-line (10 ∷ c ∷ line) rest whole,
          alive,
          starts_with-is_prefix content_length (c ∷ line) rest (omega arith),
          o.other,
        )
        (ih fuel (omega (arith, length-append line (13 ∷ rest))))

  pub Reads-length :
      (number rest : List ℕ) (len len' : ℕ) (h : Headers)
      → IsLine number
      → kstrtoint (number ++ (0 ∷ rest)) ≡ some len'
      → Reads rest len' h
      → Reads (10 ∷ (content_length ++ (number ++ (13 ∷ rest)))) len h
  unfolding headers read_length starts_with strsep
  Reads-length number rest len len' h digits_line e ih zero enough = absurd (omega arith)
  Reads-length number rest len len' h digits_line e ih (suc fuel) enough =
      rw (strsep-line number rest digits_line, e)
        (ih fuel (omega (arith, length-append number (13 ∷ rest))))

  pub Reads-lines :
      (lines : List (List ℕ)) (tail : List ℕ) (len : ℕ) (h : Headers)
      → AllOther lines
      → Reads tail len h
      → Reads (header_lines lines tail) len h
  unfolding header_lines
  Reads-lines [] tail len h o reads = reads
  Reads-lines (line ∷ lines) tail len h o reads =
      Reads-other line (header_lines lines tail) len h o.0 (Reads-lines lines tail len h o.1 reads)
