-- ===== src/Net/Http/Response/Body.antt =====
-- The checks after the headers, and the copies.
use os_course_lab.Base.{
  ℕ, ◌+◌, ◌-◌, ◌^◌, ◌≤◌, ◌<◌, leb, ◌≡◌, refl, ◌∙◌, false, none, some, List, [], ◌∷◌, ◌++◌, done,
  fault, ◌==◌, ltb, length, arith, length-append,
}
use os_course_lab.Base.Buffers.{load_bytes}
use os_course_lab.Net.Decode.{le_value}
use os_course_lab.Net.Decode.Fields.{
  le_bytes, length-le_bytes, le_value-le_bytes, load_bytes-here, load_bytes-skip,
}
use os_course_lab.Net.Http.Response.{no_length, parse_body, as_int, past_end}

-- The checks after the headers hold, and what is copied stands in memory.
parse_body-loads :
    (memory value_bytes bytes : List ℕ) (n memory_size raw_response_size response_size : ℕ)
    → n ≤ response_size
    → 8 + n < 2 ^ 31
    → memory_size - length memory + 1 + (8 + n) ≤ raw_response_size
    → load_bytes memory 1 8 ≡ done value_bytes
    → load_bytes memory 9 n ≡ done bytes
    → parse_body (some memory) (8 + n) memory_size raw_response_size response_size
      ≡ done (record { return_value = le_value value_bytes; bytes = bytes; data_len = n })
unfolding parse_body
parse_body-loads memory value_bytes bytes n memory_size raw_response_size response_size fits small
      room first second =
    let set : ((8 + n) == no_length) ≡ false = ground arith in
    let inside : past_end (memory_size - length memory + 1) (8 + n) raw_response_size ≡ false =
      ground arith in
    let enough : ltb (8 + n) 8 ≡ false = ground arith in
    let rest : as_int (8 + n + 2 ^ 64 - 8) ≡ n = ground arith in
    let space : ltb response_size n ≡ false = ground arith in
    rw (set, inside, enough, rest, space, first, second) refl

-- The checks after the headers, where the value and the bytes are there.
pub parse_body-whole :
    (value : ℕ) (bytes garbage : List ℕ) (memory_size raw_response_size response_size : ℕ)
    → value < 2 ^ 64
    → length bytes ≤ response_size
    → 8 + length bytes < 2 ^ 31
    → raw_response_size + length garbage ≡ memory_size
    → length bytes + 9 ≤ raw_response_size
    → parse_body
        (some (10 ∷ (le_bytes 8 value ++ (bytes ++ garbage))))
        (8 + length bytes)
        memory_size
        raw_response_size
        response_size
      ≡ done (record { return_value = value; bytes = bytes; data_len = length bytes })
parse_body-whole value bytes garbage memory_size raw_response_size response_size hv fits small total
      room =
    let front = length-le_bytes 8 value in
    parse_body-loads (10 ∷ (le_bytes 8 value ++ (bytes ++ garbage))) (le_bytes 8 value) bytes
      (length bytes) memory_size raw_response_size response_size fits small
      (omega (
        arith,
        length-append (le_bytes 8 value) (bytes ++ garbage),
        length-append bytes garbage,
        front,
      ))
      (load_bytes-skip (10 ∷ []) (le_bytes 8 value ++ (bytes ++ garbage)) 0 1 8 (omega arith)
        ∙ load_bytes-here (le_bytes 8 value) (bytes ++ garbage) 8 (omega (arith, front)))
      (load_bytes-skip (10 ∷ []) (le_bytes 8 value ++ (bytes ++ garbage)) 8 9 (length bytes)
          (omega arith)
        ∙ load_bytes-skip (le_bytes 8 value) (bytes ++ garbage) 0 8 (length bytes)
            (omega (arith, front))
        ∙ load_bytes-here bytes garbage (length bytes) refl)
    ∙ rw (le_value-le_bytes 8 value hv) refl

pub parse_body-cut :
    (n memory_size raw_response_size response_size : ℕ)
    → 8 ≤ n
    → n < 2 ^ 31
    → n ≤ response_size + 8
    → parse_body none n memory_size raw_response_size response_size ≡ fault
unfolding parse_body
parse_body-cut n memory_size raw_response_size response_size low high fits =
    let set : (n == no_length) ≡ false = ground arith in
    let inside : leb (2 ^ 63) n ≡ false = ground arith in
    let enough : ltb n 8 ≡ false = ground arith in
    let rest : as_int (n + 2 ^ 64 - 8) ≡ n - 8 = ground arith in
    let space : ltb response_size (n - 8) ≡ false = ground arith in
    rw (set, inside, enough, rest, space) refl
