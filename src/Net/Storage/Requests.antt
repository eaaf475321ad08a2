-- ===== src/Net/Storage/Requests.antt =====
-- The requests of vtfs_net_impl.c fit the buffers that they are built in.
use os_course_lab.Base.{
  ℕ, ◌+◌, ◌≤◌, ◌≡◌, refl, true, some, List, done, leb, length, arith, length-take,
}
use os_course_lab.Base.Text.{codes, decimal, signed_decimal}
use os_course_lab.Net.Base64.{base64_size, base64_encode}
use os_course_lab.Net.Base64.Laws.{AllBytes}
use os_course_lab.Net.Base64.Chars.{AllBytes-base64_encode}
use os_course_lab.Net.Encode.{encode}
use os_course_lab.Net.Encode.Laws.{encode-IsSafeText}
use os_course_lab.Net.Http.Request.{request_size, request_text, fill_request}
use os_course_lab.Net.Http.Request.Laws.{args_size, fill_request-fits}
use os_course_lab.Net.Storage.{unsigned_text, signed_text, encode_name}
use os_course_lab.Net.Storage.Entries.{parent_name, parent_name_mode, target_parent_name}
use os_course_lab.Net.Storage.Content.{ino_len_offset}
use os_course_lab.Net.Storage.Write.{data_arg}
use os_course_lab.Net.Storage.Write.Chunk.{encoded_text}

-- A token that `vtfs_net_storage_init` accepts.
abbrev pub IsToken : List ℕ → Type 0
IsToken token = length token ≤ 255

unsigned_text-short : (n : ℕ) → length (unsigned_text n) ≤ 31
unsigned_text-short n = omega (arith, length-take 31 (decimal n))

signed_text-short : (v : ℕ) → length (signed_text v) ≤ 31
signed_text-short v = omega (arith, length-take 31 (signed_decimal v))

pub encode_name-fits :
    (name : List ℕ) → AllBytes name → length name ≤ 255 → encode_name name ≡ done (encode name)
encode_name-fits name all short =
    let (safe, size) = encode-IsSafeText name all in
    let fits : leb (length (encode name) + 1) 766 ≡ true = ground arith in rw fits refl

pub parent_name-fits :
    (token method : List ℕ) (parent : ℕ) (name : List ℕ)
    → IsToken token
    → length method ≤ 11
    → AllBytes name
    → length name ≤ 255
    → length token + length method + args_size (parent_name parent (encode name)) + 65
      ≤ request_size
parent_name-fits token method parent name short named all size =
    let (safe, encoded) = encode-IsSafeText name all in omega (arith, unsigned_text-short parent)

-- A chunk of the user's bytes in the request for a write.
write-fits :
    (token : List ℕ) (ino offset : ℕ) (bytes text : List ℕ)
    → IsToken token
    → length bytes ≤ 4096
    → base64_encode bytes (base64_size (length bytes)) ≡ some text
    → fill_request token
        (codes "write")
        (ino_len_offset ino (length bytes) offset (data_arg (encode text)))
      ≡ done (
          request_text token
            (codes "write")
            (ino_len_offset ino (length bytes) offset (data_arg (encode text))))
write-fits token ino offset bytes text short small made =
    let (text', made', size) = encoded_text bytes (length bytes) refl small in
    let same : text' ≡ text = ground (arith, made, made') in
    let (safe, encoded) =
      encode-IsSafeText text
        (AllBytes-base64_encode bytes text (base64_size (length bytes)) made) in
    let sized : length text + 1 ≡ base64_size (length bytes) = rw (← same) size in
    fill_request-fits token (codes "write") _ (
      omega (
        arith,
        unsigned_text-short ino,
        unsigned_text-short (length bytes),
        signed_text-short offset,
      ))

-- With a token of at most 255 bytes, a name of at most 255 bytes and a chunk of at most 4096 bytes
-- in Base64, the escaped name fits its array, and the requests for a creation, a link and a write
-- fit the request buffer, so that no byte is stored past the end of either.
pub requests-fit :
    (token name : List ℕ) (parent mode target ino offset : ℕ) (bytes text : List ℕ)
    → IsToken token
    → AllBytes name
    → length name ≤ 255
    → length bytes ≤ 4096
    → base64_encode bytes (base64_size (length bytes)) ≡ some text
    → (encode_name name ≡ done (encode name))
      × (fill_request token (codes "create_file") (parent_name_mode parent mode (encode name))
          ≡ done (
              request_text token
                (codes "create_file")
                (parent_name_mode parent mode (encode name))))
      × (fill_request token (codes "link") (target_parent_name target parent (encode name))
          ≡ done
              (request_text token (codes "link") (target_parent_name target parent (encode name))))
      × (fill_request token
            (codes "write")
            (ino_len_offset ino (length bytes) offset (data_arg (encode text)))
          ≡ done (
              request_text token
                (codes "write")
                (ino_len_offset ino (length bytes) offset (data_arg (encode text)))))
requests-fit token name parent mode target ino offset bytes text short all named small made =
    let (safe, encoded) = encode-IsSafeText name all in
    let p = unsigned_text-short parent in
    (
      encode_name-fits name all named,
      fill_request-fits token (codes "create_file") _ (omega (arith, p, unsigned_text-short mode)),
      fill_request-fits token (codes "link") _ (omega (arith, p, unsigned_text-short target)),
      write-fits token ino offset bytes text short small made,
    )
