-- ===== src/Net/Http/Response/Parse.antt =====
-- Responses in the server's format, whole and cut short.
use os_course_lab.Base.{
  ℕ, zero, suc, ◌+◌, ◌/◌, ◌%◌, ◌^◌, ◌≤◌, ◌<◌, ◌≡◌, refl, ◌∙◌, Option, none, some, List, [], ◌∷◌,
  ◌++◌, done, fault, ltb, length, arith, Bool-cases, inl, inr, length-append,
}
use os_course_lab.Base.Text.{decimal, digits}
use os_course_lab.Net.Decode.Fields.{le_bytes, length-le_bytes}
use os_course_lab.Net.Http.Response.{
  strsep, content_length, no_length, Headers, body, headers, after_headers, parse_body,
  parse_http_response,
}
use os_course_lab.Net.Http.Response.Body.{parse_body-whole, parse_body-cut}
use os_course_lab.Net.Http.Response.Status.{
  HasStatusOk, HasStatusOk-IsLine, status_error-HasStatusOk,
}
use os_course_lab.Net.Http.Response.Lines.{
  IsLine, strsep-line, AllOther, header_lines, Reads, Reads-end, Reads-length, Reads-lines,
}

-- A response with the headers `before` and `after` around Content-Length, and what stands after it
-- in memory.
unfoldable pub response_text :
    (status : List ℕ) (before after : List (List ℕ)) → (number rest : List ℕ) → List ℕ
response_text status before after number rest =
    status
    ++ (13
        ∷ header_lines before
            (10 ∷ (content_length ++ (number ++ (13 ∷ header_lines after (10 ∷ 13 ∷ 10 ∷ rest))))))

-- What the kernel documents of kstrtoint for a number in decimal that ends with the string.
abbrev pub ReadsDecimal : (List ℕ → Option ℕ) → Type 0
ReadsDecimal kstrtoint =
    (n : ℕ) (rest : List ℕ) → n < 2 ^ 31 → kstrtoint (decimal n ++ (0 ∷ rest)) ≡ some n

IsLine-digits : (k n : ℕ) (out : List ℕ) → IsLine out → IsLine (digits k n out)
unfolding digits
IsLine-digits zero n out h = h
IsLine-digits (suc k) n out h = elim (Bool-cases (ltb n 10)) [
  | inl last ↦ rw last (omega arith, omega arith, h)
  | inr more ↦
      rw more (IsLine-digits k (n / 10) ((b'0' + n % 10) ∷ out) (omega arith, omega arith, h))
]

pub IsLine-decimal : (n : ℕ) → IsLine (decimal n)
unfolding decimal
IsLine-decimal n = IsLine-digits 20 n [] tt

length-header_lines :
    (lines : List (List ℕ)) (tail : List ℕ) → length tail ≤ length (header_lines lines tail)
unfolding header_lines
length-header_lines [] tail = omega arith
length-header_lines (line ∷ lines) tail =
    omega (arith, length-append line (13 ∷ header_lines lines tail), length-header_lines lines tail)

parse_lines :
    (kstrtoint : List ℕ → Option ℕ) (status lines : List ℕ) (h : Headers)
    (raw_response_size response_size : ℕ)
    → HasStatusOk status
    → Reads kstrtoint lines no_length h
    → parse_http_response kstrtoint (status ++ (13 ∷ lines)) raw_response_size response_size
      ≡ after_headers (length (status ++ (13 ∷ lines))) raw_response_size response_size h
unfolding parse_http_response
parse_lines kstrtoint status lines h raw_response_size response_size ok reads =
    rw
      (
        strsep-line status lines (HasStatusOk-IsLine status ok),
        status_error-HasStatusOk status ok,
        reads (length (status ++ (13 ∷ lines)) + 2)
            (omega (arith, length-append status (13 ∷ lines))),
      )
      refl

module _ (kstrtoint : List ℕ → Option ℕ) (documented : ReadsDecimal kstrtoint) (status : List ℕ)
    (before after : List (List ℕ)) (ok : HasStatusOk status) (others_before : AllOther before)
    (others_after : AllOther after) (n : ℕ) (small : n < 2 ^ 31) where
  -- The headers give the length, and the place after them.
  headers_read :
      (rest : List ℕ)
      → Reads kstrtoint
          (header_lines before (
            10
            ∷ (content_length ++ (decimal n ++ (13 ∷ header_lines after (10 ∷ 13 ∷ 10 ∷ rest))))))
          no_length
          (body (some (10 ∷ rest)) n)
  headers_read rest =
      Reads-lines kstrtoint before _ no_length (body (some (10 ∷ rest)) n) others_before (
        Reads-length kstrtoint (decimal n) (header_lines after (10 ∷ 13 ∷ 10 ∷ rest)) no_length n
          (body (some (10 ∷ rest)) n) (IsLine-decimal n)
          (documented n (header_lines after (10 ∷ 13 ∷ 10 ∷ rest)) small)
          (Reads-lines kstrtoint after (10 ∷ 13 ∷ 10 ∷ rest) n (body (some (10 ∷ rest)) n)
            others_after (Reads-end kstrtoint (10 ∷ rest) n)))

  -- What is left of the call after the headers.
  pub parse_text :
      (rest : List ℕ) (raw_response_size response_size : ℕ)
      → parse_http_response kstrtoint
          (response_text status before after (decimal n) rest)
          raw_response_size
          response_size
        ≡ parse_body
            (some (10 ∷ rest))
            n
            (length (response_text status before after (decimal n) rest))
            raw_response_size
            response_size
  unfolding response_text
  parse_text rest raw_response_size response_size =
      parse_lines kstrtoint status _ (body (some (10 ∷ rest)) n) raw_response_size response_size ok
        (headers_read rest)

pub length-response_text :
    (status : List ℕ) (before after : List (List ℕ)) (number rest : List ℕ)
    → length rest + 3 ≤ length (response_text status before after number rest)
unfolding response_text
length-response_text status before after number rest =
    let blank = 10 ∷ 13 ∷ 10 ∷ rest in
    let last = header_lines after blank in
    omega (
      arith,
      length-append status
          (13 ∷ header_lines before (10 ∷ (content_length ++ (number ++ (13 ∷ last))))),
      length-header_lines before (10 ∷ (content_length ++ (number ++ (13 ∷ last)))),
      length-header_lines after blank,
      length-append number (13 ∷ last),
    )

-- The same, where the text ends before the end of the last line's break.
unfoldable pub cut_text :
    (status : List ℕ) (before after : List (List ℕ)) → (number garbage : List ℕ) → List ℕ
cut_text status before after number garbage =
    status
    ++ (13
        ∷ header_lines before
            (10 ∷ (content_length ++ (number ++ (13 ∷ header_lines after (10 ∷ 0 ∷ garbage))))))

Reads-cut :
    (kstrtoint : List ℕ → Option ℕ) (garbage : List ℕ) (len : ℕ)
    → Reads kstrtoint (10 ∷ 0 ∷ garbage) len (body none len)
unfolding headers strsep
Reads-cut kstrtoint garbage len zero h = absurd (omega arith)
Reads-cut kstrtoint garbage len (suc fuel) h = refl

-- Where kstrtoint reads decimal numbers as documented, a response with any status line of status
-- 200 (a word, a space, 200, and nothing or a space and a text), any other headers (lines that are
-- not empty and hold no terminator and no carriage return) around a Content-Length that counts the
-- eight bytes of the value and the other bytes, a 64-bit value and fewer than 2 ^ 31 - 8 bytes
-- that fit the caller's buffer is parsed to this value and these bytes, whatever stands in memory
-- after it.
pub parse_http_response-response_text :
    (kstrtoint : List ℕ → Option ℕ) (status : List ℕ) (before after : List (List ℕ)) (value : ℕ)
    (bytes garbage : List ℕ) (raw_response_size response_size : ℕ)
    → ReadsDecimal kstrtoint
    → HasStatusOk status
    → AllOther before
    → AllOther after
    → value < 2 ^ 64
    → length bytes ≤ response_size
    → 8 + length bytes < 2 ^ 31
    → raw_response_size + length garbage
      ≡ length (
          response_text status before after
            (decimal (8 + length bytes))
            (le_bytes 8 value ++ (bytes ++ garbage)))
    → parse_http_response kstrtoint
        (response_text status before after
          (decimal (8 + length bytes))
          (le_bytes 8 value ++ (bytes ++ garbage)))
        raw_response_size
        response_size
      ≡ done (record { return_value = value; bytes = bytes; data_len = length bytes })
parse_http_response-response_text kstrtoint status before after value bytes garbage
      raw_response_size response_size documented ok others_before others_after hv fits small total =
    parse_text kstrtoint documented status before after ok others_before others_after
      (8 + length bytes) small (le_bytes 8 value ++ (bytes ++ garbage)) raw_response_size
      response_size
    ∙ parse_body-whole value bytes garbage _ raw_response_size response_size hv fits small total (
        omega (
          arith,
          length-response_text status before after (decimal (8 + length bytes))
              (le_bytes 8 value ++ (bytes ++ garbage)),
          length-append (le_bytes 8 value) (bytes ++ garbage),
          length-append bytes garbage,
          length-le_bytes 8 value,
        ))

-- Where kstrtoint reads decimal numbers as documented, a response with any status line of status
-- 200 (a word, a space, 200, and nothing or a space and a text), a Content-Length from 8 to 2 ^ 31
-- - 1 that the caller's buffer can hold and any other headers (lines that are not empty and hold
-- no terminator and no carriage return), whose string ends in the line break after the last
-- header, is no error for the parser: it copies from the address after NULL, which is a fault.
pub parse_http_response-cut_text :
    (kstrtoint : List ℕ → Option ℕ) (status : List ℕ) (before after : List (List ℕ)) (n : ℕ)
    (garbage : List ℕ) (raw_response_size response_size : ℕ)
    → ReadsDecimal kstrtoint
    → HasStatusOk status
    → AllOther before
    → AllOther after
    → 8 ≤ n
    → n < 2 ^ 31
    → n ≤ response_size + 8
    → parse_http_response kstrtoint
        (cut_text status before after (decimal n) garbage)
        raw_response_size
        response_size
      ≡ fault
unfolding cut_text
parse_http_response-cut_text kstrtoint status before after n garbage raw_response_size response_size
      documented ok others_before others_after low high fits =
    parse_lines kstrtoint status _ (body none n) raw_response_size response_size ok (
      Reads-lines kstrtoint before _ no_length (body none n) others_before (
        Reads-length kstrtoint (decimal n) _ no_length n (body none n) (IsLine-decimal n)
          (documented n _ high)
          (Reads-lines kstrtoint after _ n (body none n) others_after
            (Reads-cut kstrtoint garbage n))))
    ∙ parse_body-cut n _ raw_response_size response_size low high fits
