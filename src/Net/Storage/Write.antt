-- ===== src/Net/Storage/Write.antt =====
-- `vtfs_net_storage_write`: the user's bytes go to the server in chunks.
pub mod Put
pub mod Chunk
pub mod Whole
pub mod Ends
use os_course_lab.Base.{
  ℕ, zero, suc, ◌+◌, ◌-◌, ◌*◌, ◌%◌, ◌^◌, Bool, true, false, Option, none, some, List, [], ◌∷◌, Run,
  done, fault, ◌>>=◌, ◌==◌, ltb, if◌then◌else◌,
}
use os_course_lab.Base.Text.{codes}
use os_course_lab.Interface.IoParams.{slt}
use os_course_lab.Net.Base64.{base64_size, base64_encode}
use os_course_lab.Net.Decode.{load_le}
use os_course_lab.Net.Http.Request.{Arg}
use os_course_lab.Net.Http.Response.{Response, as_int}
use os_course_lab.Net.Storage.{Host, einval_code, enomem_code, response_memory, encode_into}
use os_course_lab.Net.Storage.Content.{efault_code, Moved, unmoved, ino_len_offset}

-- 4 KB
abbrev pub max_chunk_size : ℕ
max_chunk_size = 4 * 1024

abbrev pub chunk_size : (remaining : ℕ) → ℕ
chunk_size remaining = if ltb max_chunk_size remaining then max_chunk_size else remaining

-- The variables of the loop of the write; `at` is the position of `current_ptr`.
pub record Progress : Type 0 where
  pub current_offset : ℕ
  pub total_written : ℕ
  pub remaining : ℕ
  pub at : ℕ

-- The returns inside the loop. Those before the request leave `*offset` alone.
abbrev pub give_up : (code offset : ℕ) → Progress → Moved
give_up code offset p =
    if ltb 0 p.total_written
    then unmoved p.total_written (some offset)
    else unmoved code (some offset)

abbrev pub refuse : (code offset : ℕ) → Progress → Moved
refuse code offset p =
    if ltb 0 p.total_written
    then unmoved p.total_written (some p.current_offset)
    else unmoved code (some offset)

abbrev pub finish : Progress → Moved
finish p = unmoved p.total_written (some p.current_offset)

abbrev pub advance : (written : ℕ) → Progress → Progress
advance written p = record {
  current_offset = (p.current_offset + written) % 2 ^ 64;
  total_written = (p.total_written + written) % 2 ^ 64;
  remaining = (p.remaining + 2 ^ 64 - written) % 2 ^ 64;
  at = (p.at + written) % 2 ^ 64;
}

abbrev pub first_progress : (len offset : ℕ) → Progress
first_progress len offset = record {
  current_offset = offset;
  total_written = 0;
  remaining = len;
  at = 0;
}

-- How a round ends: by a return, or with the loop going on or left.
pub data Round : Type 0 where
  returns : Moved → Round
  goes_on : Progress → Round
  leaves : Progress → Round

abbrev pub data_arg : (encoded : List ℕ) → List Arg
data_arg encoded = record { name = codes "data"; text = encoded } ∷ []

-- A parameter group for one call: the token, the inode, the user's bytes and the first `*offset`.
module _ {W : Type 0} (host : Host W) (token : List ℕ) (ino : ℕ) (user : List ℕ) (offset : ℕ) where
  -- `written` is the number that the server answers.
  abbrev pub count_written : (p : Progress) → (written : ℕ) → Round
  count_written p written =
      if slt written (chunk_size p.remaining)
      then leaves (advance written p)
      else goes_on (advance written p)

  -- From the server's answer on.
  abbrev pub chunk_answered : Progress → Response × W → Run (Round × W)
  chunk_answered p (r, w) =
      if r.return_value == 0
      then (do
        memory ← response_memory 256 r.bytes
        written ← load_le memory 0 8
        done (count_written p written, host.kfree w))
      else done (returns (refuse (as_int r.return_value) offset p), host.kfree w)

  -- From the third kmalloc on.
  abbrev pub chunk_sent : Progress → (text : List ℕ) → Bool × W → Run (Round × W)
  chunk_sent p text (false, w) = done (returns (give_up enomem_code offset p), host.kfree w)
  chunk_sent p text (true, w) = do
    encoded ← encode_into ((base64_size (chunk_size p.remaining) * 3) % 2 ^ 64) text
    answer ←
        host.call token (codes "write") 256
          (ino_len_offset ino (chunk_size p.remaining) p.current_offset (data_arg encoded))
          (host.kfree w)
    chunk_answered p answer

  -- From the encoding on.
  abbrev pub chunk_encoded : Progress → Option (List ℕ) → W → Run (Round × W)
  chunk_encoded p none w = done (returns (give_up einval_code offset p), host.kfree w)
  chunk_encoded p (some text) w =
      chunk_sent p text (host.kmalloc ((base64_size (chunk_size p.remaining) * 3) % 2 ^ 64) w)

  -- From the second kmalloc on.
  abbrev pub chunk_copied : Progress → (kernel_buffer : List ℕ) → Bool × W → Run (Round × W)
  chunk_copied p kernel_buffer (false, w) =
      done (returns (give_up enomem_code offset p), host.kfree w)
  chunk_copied p kernel_buffer (true, w) =
      chunk_encoded p (base64_encode kernel_buffer (base64_size (chunk_size p.remaining)))
        (host.kfree w)

  -- From copy_from_user on.
  abbrev pub chunk_read : Progress → (List ℕ × ℕ) × W → Run (Round × W)
  chunk_read p ((kernel_buffer, left), w) =
      if left == 0
      then chunk_copied p kernel_buffer (host.kmalloc (base64_size (chunk_size p.remaining)) w)
      else done (returns (give_up efault_code offset p), host.kfree w)

  -- From the first kmalloc on.
  abbrev pub chunk_allocated : Progress → Bool × W → Run (Round × W)
  chunk_allocated p (false, w) = done (returns (give_up enomem_code offset p), w)
  chunk_allocated p (true, w) =
      chunk_read p (host.copy_from_user user p.at (chunk_size p.remaining) w)

  -- One round of the loop.
  unfoldable pub write_chunk : Progress → W → Run (Round × W)
  write_chunk p w = chunk_allocated p (host.kmalloc (chunk_size p.remaining) w)

  abbrev pub next_round : (next : Progress → W → Run (Moved × W)) → Round × W → Run (Moved × W)
  next_round next (returns m, w) = done (m, w)
  next_round next (goes_on p, w) = next p w
  next_round next (leaves p, w) = done (finish p, w)

  -- The loop, on fuel.
  unfoldable pub write_loop : (fuel : ℕ) → Progress → W → Run (Moved × W)
  write_loop zero p w = fault
  write_loop (suc fuel) p w =
      if p.remaining == 0
      then done (finish p, w)
      else write_chunk p w >>= next_round (write_loop fuel)

module _ {W : Type 0} (host : Host W) where
  unfoldable pub write :
      (sb : Option (List ℕ))
      → (ino : ℕ) → (has_buffer : Bool) → (user : List ℕ) → (len : ℕ) → (offset : Option ℕ) → W
      → Run (Moved × W)
  write none ino has_buffer user len offset w = done (unmoved einval_code offset, w)
  write (some token) ino false user len offset w = done (unmoved einval_code offset, w)
  write (some token) ino true user len none w = done (unmoved einval_code none, w)
  write (some token) ino true user len (some offset) w =
      write_loop host token ino user offset (len + 1) (first_progress len offset) w
