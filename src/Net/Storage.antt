-- ===== src/Net/Storage.antt =====
-- source/impl/net/vtfs_net_impl.c: what its operations share. `sb->s_fs_info` is the token of the
-- mounted storage, or none for NULL. Numbers are 64-bit patterns; an `int` is sign-extended.
pub mod Mount
pub mod Entries
pub mod Content
pub mod Write
pub mod OnHttp
pub mod Requests
pub mod Answers
pub mod Errors
use os_course_lab.Base.{
  ℕ, ◌+◌, ◌*◌, Bool, Option, none, some, List, Run, done, fault, ◌>>=◌, ◌==◌, leb, if◌then◌else◌,
  length, take, replicate,
}
use os_course_lab.Base.Text.{decimal, signed_decimal}
use os_course_lab.Base.Buffers.{store_bytes}
use os_course_lab.Interface.{name_max, NodeMeta}
use os_course_lab.Net.Decode.{parse_node_meta}
use os_course_lab.Net.Encode.{encode}
use os_course_lab.Net.Http.Request.{Arg}
use os_course_lab.Net.Http.Response.{Response, neg, as_int}

-- What the operations call: `vtfs_http_call`, and the kernel's memory functions, on a state `W`.
-- `copy_from_user` reads at a position of the user's buffer, and gives the bytes that the
-- destination then holds and the number that was not copied; `copy_to_user` gives that number.
pub record Host (W : Type 0) : Type 0 where
  pub call : (token method : List ℕ) → (buffer_size : ℕ) → List Arg → W → Run (Response × W)
  pub kzalloc : (size : ℕ) → W → Bool × W
  pub kmalloc : (size : ℕ) → W → Bool × W
  pub kfree : W → W
  pub copy_to_user : List ℕ → W → ℕ × W
  pub copy_from_user : (user : List ℕ) → (at n : ℕ) → W → (List ℕ × ℕ) × W

-- What an operation returns, and what it writes to its out parameter.
pub record Reply (A : Type 0) : Type 0 where
  pub code : ℕ
  pub out : Option A

abbrev pub failed_with : {A : Type 0} → (code : ℕ) → Reply A
failed_with code = record { code = code; out = none }

abbrev pub wrote : {A : Type 0} → A → Reply A
wrote a = record { code = 0; out = some a }

-- EINVAL and the other codes, as they are returned
abbrev pub einval_code : ℕ
einval_code = neg 22

abbrev pub enomem_code : ℕ
enomem_code = neg 12

abbrev pub enoent_code : ℕ
enoent_code = neg 2

-- An array of `size` zeros into which a call copied its response.
abbrev pub response_memory : (size : ℕ) → List ℕ → Run (List ℕ)
response_memory size bytes = store_bytes (replicate size 0) 0 bytes

-- `snprintf` into an array of 32 characters
abbrev pub unsigned_text : ℕ → List ℕ
unsigned_text n = take 31 (decimal n)

abbrev pub signed_text : ℕ → List ℕ
signed_text v = take 31 (signed_decimal v)

-- `encode` into an array: a fault where the text and its terminator do not fit.
abbrev pub encode_into : (size : ℕ) → List ℕ → Run (List ℕ)
encode_into size src = if leb (length (encode src) + 1) size then done (encode src) else fault

-- The array `encoded_name`
abbrev pub encode_name : List ℕ → Run (List ℕ)
encode_name = encode_into (name_max * 3 + 1)

-- The return value of an operation without an out parameter.
abbrev pub plain_reply : {W : Type 0} → Response × W → ℕ × W
plain_reply (r, w) = (if r.return_value == 0 then 0 else as_int r.return_value, w)

-- From the response on, where it holds the metadata of a node; `refusal` maps an error of the
-- server.
abbrev pub meta_reply : {W : Type 0} → (refusal : ℕ → ℕ) → Response × W → Run (Reply NodeMeta × W)
meta_reply refusal (r, w) =
    if r.return_value == 0
    then (do
      memory ← response_memory 1024 r.bytes
      meta ← parse_node_meta memory
      done (wrote meta, w))
    else done (failed_with (refusal r.return_value), w)

-- `-ENOENT` for the server's ENOENT, in lookup and iterate_dir alone.
abbrev pub or_enoent : ℕ → ℕ
or_enoent result = if result == 2 then enoent_code else as_int result
