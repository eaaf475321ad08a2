-- ===== src/Net/Storage/Content.antt =====
-- `vtfs_net_storage_read`, and what the write shares with it. `has_buffer` says that the user's pointer
-- is not NULL; `offset` is what the pointer to the offset holds, or none for NULL.
use os_course_lab.Base.{
  ℕ, ◌+◌, ◌%◌, ◌^◌, Bool, true, false, Option, none, some, List, [], ◌∷◌, Run, done, ◌>>=◌, ◌==◌,
  ltb, if◌then◌else◌,
}
use os_course_lab.Base.Text.{codes}
use os_course_lab.Base.Buffers.{load_bytes}
use os_course_lab.Net.Http.Request.{Arg}
use os_course_lab.Net.Http.Response.{Response, neg, as_int}
use os_course_lab.Net.Storage.{
  Host, einval_code, enomem_code, response_memory, unsigned_text, signed_text,
}

-- EFAULT
abbrev pub efault_code : ℕ
efault_code = neg 14

-- What a call leaves: its return value, the bytes that a complete copy gave the user, and
-- `*offset`.
pub record Moved : Type 0 where
  pub count : ℕ
  pub bytes : List ℕ
  pub offset : Option ℕ

abbrev pub unmoved : (code : ℕ) → Option ℕ → Moved
unmoved code offset = record { count = code; bytes = []; offset = offset }

abbrev pub ino_len_offset : (ino len offset : ℕ) → List Arg → List Arg
ino_len_offset ino len offset more =
    record { name = codes "ino"; text = unsigned_text ino }
    ∷ record { name = codes "len"; text = unsigned_text len }
    ∷ record { name = codes "offset"; text = signed_text offset }
    ∷ more

-- `bytes_to_copy`
abbrev pub to_copy : (data_length len response_buffer_size : ℕ) → ℕ
to_copy data_length len response_buffer_size =
    let wanted = if ltb len data_length then len else data_length in
    if ltb response_buffer_size wanted then response_buffer_size else wanted

module _ {W : Type 0} (host : Host W) where
  -- From the answer of the server to a read on.
  abbrev pub read_answered : (len offset response_buffer_size : ℕ) → Response × W → Run (Moved × W)
  read_answered len offset response_buffer_size (r, w) =
      if r.return_value == 0
      then (do
        memory ← response_memory response_buffer_size r.bytes
        out ← load_bytes memory 0 (to_copy r.data_len len response_buffer_size)
        let (left, w') = host.copy_to_user out w
        done (
          if left == 0
              then record {
                count = to_copy r.data_len len response_buffer_size;
                bytes = out;
                offset = some ((offset + to_copy r.data_len len response_buffer_size) % 2 ^ 64);
              }
              else unmoved efault_code (some offset),
          host.kfree w',
        ))
      else done (unmoved (as_int r.return_value) (some offset), host.kfree w)

  -- From the answer of kmalloc on.
  abbrev pub read_allocated :
      (token : List ℕ) → (ino len offset response_buffer_size : ℕ) → Bool × W → Run (Moved × W)
  read_allocated token ino len offset response_buffer_size (false, w) =
      done (unmoved enomem_code (some offset), w)
  read_allocated token ino len offset response_buffer_size (true, w) = do
    answer ←
        host.call token (codes "read") response_buffer_size (ino_len_offset ino len offset []) w
    read_answered len offset response_buffer_size answer

  unfoldable pub read :
      (sb : Option (List ℕ))
      → (ino : ℕ) → (has_buffer : Bool) → (len : ℕ) → (offset : Option ℕ) → W
      → Run (Moved × W)
  read none ino has_buffer len offset w = done (unmoved einval_code offset, w)
  read (some token) ino false len offset w = done (unmoved einval_code offset, w)
  read (some token) ino true len none w = done (unmoved einval_code none, w)
  read (some token) ino true len (some offset) w =
      let response_buffer_size = (len + 1024) % 2 ^ 64 in
      read_allocated token ino len offset response_buffer_size (host.kmalloc response_buffer_size w)
