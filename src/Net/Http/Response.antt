-- ===== src/Net/Http/Response.antt =====
-- `parse_http_response`. `memory` is the whole block that kmalloc gave for the answer: what was
-- received stands in its first `raw_response_size` bytes, and anything in the others. Scanning past
-- the block is a fault.
pub mod Lines
pub mod Status
pub mod Body
pub mod Parse
use os_course_lab.Base.{
  ℕ, zero, suc, ◌+◌, ◌-◌, ◌*◌, ◌%◌, ◌^◌, Bool, true, false, Option, none, some, List, [], ◌∷◌, ◌++◌,
  Run, done, fault, ◌>>=◌, ◌==◌, ltb, leb, if◌then◌else◌, length, take, drop, str_eq,
}
use os_course_lab.Base.Text.{codes}
use os_course_lab.Base.Buffers.{load_bytes}
use os_course_lab.Net.Decode.{le_value}

-- A negative number as a 64-bit pattern.
abbrev pub neg : ℕ → ℕ
neg n = 2 ^ 64 - n

-- `(int)x`, as a 64-bit pattern.
abbrev pub as_int : ℕ → ℕ
as_int x = let low = x % 2 ^ 32 in if leb (2 ^ 31) low then low + (2 ^ 64 - 2 ^ 32) else low

-- What a call leaves: the value that it returns, the bytes in `response`, and `*data_len`.
pub record Response : Type 0 where
  pub return_value : ℕ
  pub bytes : List ℕ
  pub data_len : ℕ

-- An error return, which leaves `response` and `*data_len` alone.
abbrev pub refused : ℕ → Response
refused n = record { return_value = neg n; bytes = []; data_len = 0 }

-- `strsep(&s, delim)` on a string in memory: the token, what follows the delimiter (nothing at the
-- end of the string, where `s` becomes NULL), and the memory after the byte that ended the token.
pub record Sep : Type 0 where
  pub token : List ℕ
  pub rest : Option (List ℕ)
  pub after : List ℕ

abbrev prepend : ℕ → Run Sep → Run Sep
prepend c fault = fault
prepend c (done s) = done (record s { token = c ∷ s.token })

unfoldable pub strsep : (delim : ℕ) → List ℕ → Run Sep
strsep delim [] = fault
strsep delim (c ∷ memory) =
    let later = prepend c (strsep delim memory) in
    if c == 0
    then done (record { token = []; rest = none; after = memory })
    else if c == delim
    then done (record { token = []; rest = some memory; after = memory })
    else later

-- The same on the status line, which is a token already.
abbrev push_token : ℕ → List ℕ × Option (List ℕ) → List ℕ × Option (List ℕ)
push_token c (token, rest) = (c ∷ token, rest)

unfoldable pub split_at : (delim : ℕ) → List ℕ → List ℕ × Option (List ℕ)
split_at delim [] = ([], none)
split_at delim (c ∷ line) =
    let later = push_token c (split_at delim line) in if c == delim then ([], some line) else later

-- The first word is skipped, and the second is compared with "200": 0, or the code of the error.
abbrev code_of_word : Option (List ℕ) → ℕ
code_of_word none = 6
code_of_word (some line) = if str_eq (split_at b' ' line).0 (codes "200") then 0 else 5

unfoldable pub status_error : List ℕ → ℕ
unfolding split_at
status_error line = code_of_word (split_at b' ' line).1

-- The memory that `header` points to after `++header`.
abbrev header_memory : List ℕ → List ℕ → List ℕ
header_memory [] after = after
header_memory (c ∷ token) after = token ++ (0 ∷ after)

-- `strcmp(header, "") == 0`
abbrev is_empty : List ℕ → Run Bool
is_empty [] = fault
is_empty (c ∷ memory) = done (c == 0)

-- `strncmp(header, key, …) == 0` with the length of `key`
unfoldable pub starts_with : (key header : List ℕ) → Run Bool
starts_with [] header = done true
starts_with (k ∷ key) [] = fault
starts_with (k ∷ key) (c ∷ header) =
    let later = starts_with key header in if k == c then later else done false

abbrev pub content_length : List ℕ
content_length = codes "Content-Length: "

-- The value of `length` before a header gives it.
abbrev pub no_length : ℕ
no_length = neg 1

-- How the loop over the headers ends: by an error, or with what `buffer` points to and `length`.
pub data Headers : Type 0 where
  bad : Headers
  body : Option (List ℕ) → (len : ℕ) → Headers

module _ (kstrtoint : List ℕ → Option ℕ) where
  -- The conversion of the number after "Content-Length: ".
  unfoldable pub read_length : (header : List ℕ) → (len : ℕ) → Run (Option ℕ)
  unfolding starts_with
  read_length header len = do
    named ← starts_with content_length header
    done (if named then kstrtoint (drop 16 header) else some len)

  -- A header that is no "" is read, and the loop goes on by `next`.
  abbrev found_length : (next : ℕ → Run Headers) → Option ℕ → Run Headers
  found_length next none = done bad
  found_length next (some len) = next len

  abbrev pub read_header : (next : ℕ → Run Headers) → Sep → (len : ℕ) → (ends : Bool) → Run Headers
  read_header next s len true = done (body s.rest len)
  read_header next s len false = do
    found ← read_length (header_memory s.token s.after) len
    found_length next found

  -- The loop, on fuel.
  unfoldable pub headers : (fuel : ℕ) → Option (List ℕ) → (len : ℕ) → Run Headers
  headers zero buffer len = fault
  headers (suc fuel) none len = done bad
  headers (suc fuel) (some buffer) len = do
    s ← strsep 13 buffer
    ends ← is_empty (header_memory s.token s.after)
    read_header (headers fuel s.rest) s len ends

-- `buffer + length > raw_response + raw_response_size`, for `buffer` at position `at`
abbrev pub past_end : (at len raw_response_size : ℕ) → Bool
past_end at len size =
    if leb (2 ^ 63) len then ltb size (at - (2 ^ 64 - len)) else ltb size (at + len)

-- The two calls of memcpy. After the end of the string `buffer` is NULL + 1.
abbrev copy_body : Option (List ℕ) → (len : ℕ) → Run Response
copy_body none len = fault
copy_body (some memory) len = do
  value ← load_bytes memory 1 8
  bytes ← load_bytes memory 9 len
  done (record { return_value = le_value value; bytes = bytes; data_len = len })

-- The same test on `buffer` before `++buffer`. NULL + 1 is past the end only with a negative
-- length.
abbrev ends_past : Option (List ℕ) → (memory_size len raw_response_size : ℕ) → Bool
ends_past none memory_size len size = leb (2 ^ 63) len
ends_past (some memory) memory_size len size = past_end (memory_size - length memory + 1) len size

-- The checks after the headers.
unfoldable pub parse_body :
    Option (List ℕ) → (len memory_size raw_response_size response_size : ℕ) → Run Response
parse_body buffer len memory_size raw_response_size response_size =
    if len == no_length
    then done (refused 6)
    else if ends_past buffer memory_size len raw_response_size
    then done (refused 6)
    else if ltb len 8
    then done (refused 7)
    else (let len' = as_int (len + 2 ^ 64 - 8) in
        if ltb response_size len' then done (refused 28) else copy_body buffer len')

abbrev pub after_headers :
    (memory_size raw_response_size response_size : ℕ) → Headers → Run Response
after_headers memory_size raw_response_size response_size bad = done (refused 6)
after_headers memory_size raw_response_size response_size (body buffer len) =
    parse_body buffer len memory_size raw_response_size response_size

unfoldable pub parse_http_response :
    (kstrtoint : List ℕ → Option ℕ)
    → (memory : List ℕ) → (raw_response_size response_size : ℕ) → Run Response
parse_http_response kstrtoint memory raw_response_size response_size = do
  s ← strsep 13 memory
  (if status_error s.token == 0
      then (do
        h ← headers kstrtoint (length memory + 2) s.rest no_length
        after_headers (length memory) raw_response_size response_size h)
      else done (refused (status_error s.token)))
