-- ===== src/Net/Storage/Write/Whole.antt =====
-- The chunks of a write together, at a server that stores them.
use os_course_lab.Base.{
  ℕ, zero, suc, ◌+◌, ◌*◌, ◌%◌, ◌^◌, ◌≤◌, ◌<◌, ◌≡◌, ◌≢◌, refl, ap, ap₂, subst, ◌∙◌, sym, true, false,
  some, List, ◌++◌, done, ◌==◌, length, take, drop, replicate, arith, ◌⊎◌, inl, inr, length-drop,
  take-append-drop, take_all, drop-drop,
}
use os_course_lab.Base.Text.{codes}
use os_course_lab.Base.Splice.{length-range}
use os_course_lab.Interface.IoParams.{slt}
use os_course_lab.Net.Base64.{base64_size}
use os_course_lab.Net.Base64.Laws.{AllBytes, base64_decode}
use os_course_lab.Net.Base64.Chars.{AllBytes-base64_encode}
use os_course_lab.Net.Encode.{encode}
use os_course_lab.Net.Encode.Laws.{percent_decode}
use os_course_lab.Net.Decode.Fields.{le_bytes, load_le-here}
use os_course_lab.Net.Storage.{Host}
use os_course_lab.Net.Storage.Content.{ino_len_offset, unmoved}
use os_course_lab.Net.Storage.Write.{
  chunk_size, Progress, goes_on, finish, advance, data_arg, write_chunk, write_loop, first_progress,
  write,
}
use os_course_lab.Net.Storage.Write.Chunk.{
  answer_memory, chunk-decodes, encode_into-fits, encoded_text, AllBytes-take, AllBytes-drop,
  chunk_size-cases,
}
use os_course_lab.Net.Storage.Write.Put.{put, put-put}

module _ {W : Type 0} (host : Host W) (token : List ℕ) (ino : ℕ) (file_of : W → List ℕ) where
  -- Memory that is there, a user's buffer that can be read, and a server that keeps the file
  -- `file_of`: it puts the first `len` bytes that it decodes at the offset, and answers their
  -- number.
  pub record StoresChunks : Type 0 where
    pub memory :
        (size : ℕ) (w : W)
        → (w' : W) × (host.kmalloc size w ≡ (true, w')) × (file_of w' ≡ file_of w)
    pub freed : (w : W) → file_of (host.kfree w) ≡ file_of w
    pub copied :
        (user : List ℕ) (at n : ℕ) (w : W)
        → at + n ≤ length user
        → (w' : W) × (host.copy_from_user user at n w ≡ ((take n (drop at user), 0), w'))
          × (file_of w' ≡ file_of w)
    pub stores :
        (len offset : ℕ) (encoded : List ℕ) (w : W)
        → len ≤ 4096
        → offset < 2 ^ 63
        → (w' : W) × (host.call token
              (codes "write")
              256
              (ino_len_offset ino len offset (data_arg encoded))
              w
            ≡ done (record { return_value = 0; bytes = le_bytes 8 len; data_len = 8 }, w'))
          × (file_of w'
              ≡ put (file_of w) offset (take len (base64_decode (percent_decode encoded))))

  module _ (server : StoresChunks) (user : List ℕ) (offset : ℕ)
      (all : (at n : ℕ) → AllBytes (take n (drop at user))) where
    -- A round stores its chunk.
    write_chunk-stores :
        (p : Progress) (w : W)
        → p.at + chunk_size p.remaining ≤ length user
        → p.current_offset < 2 ^ 63
        → chunk_size p.remaining ≢ 1
        → (w' : W) × (write_chunk host token ino user offset p w
            ≡ done (goes_on (advance (chunk_size p.remaining) p), w'))
          × (file_of w'
              ≡ put (file_of w) p.current_offset (take (chunk_size p.remaining) (drop p.at user)))
    unfolding write_chunk
    write_chunk-stores p w inside early long =
        let n = chunk_size p.remaining in
        let bytes = take n (drop p.at user) in
        let size = length-range n p.at user inside in
        let small : n ≤ 4096 = ground arith in
        let (text, made, text_size) = encoded_text bytes n size small in
        let (w₁, e₁, k₁) = server.memory n w in
        let (w₂, e₂, k₂) = server.copied user p.at n w₁ inside in
        let (w₃, e₃, k₃) = server.memory (base64_size n) w₂ in
        let (w₄, e₄, k₄) = server.memory ((base64_size n * 3) % 2 ^ 64) (host.kfree w₃) in
        let (w₅, e₅, k₅) =
          server.stores n p.current_offset (encode text) (host.kfree w₄) small early in
        let fits =
          encode_into-fits text n (AllBytes-base64_encode bytes text (base64_size n) made) text_size
            small in
        let read = load_le-here 8 n (replicate 248 0) (omega arith) in
        let same : slt n n ≡ false = ground arith in
        let keeps : file_of (host.kfree w₄) ≡ file_of w =
          cc (server.freed w₄, k₄, server.freed w₃, k₃, k₂, k₁) in
        let decoded =
          chunk-decodes bytes text (base64_size n) (all p.at n) (omega (arith, size))
            (omega (arith, size)) made in
        (
          host.kfree w₅,
          rw (e₁, e₂, e₃, made, e₄, fits, e₅, answer_memory n, read, same) refl,
          server.freed w₅
              ∙ k₅
              ∙ ap₂ (λ old new. put old p.current_offset new) keeps
                  (subst (λ k. take k (base64_decode (percent_decode (encode text))) ≡ bytes) size
                    decoded),
        )

    loop-finished :
        (fuel : ℕ) (p : Progress) (w : W)
        → 0 < fuel
        → p.remaining ≡ 0
        → write_loop host token ino user offset fuel p w ≡ done (finish p, w)
    unfolding write_loop
    loop-finished zero p w h e = absurd (omega arith)
    loop-finished (suc fuel) p w h e =
        let stop : (p.remaining == 0) ≡ true = ground arith in rw stop refl

    -- What the loop still has to do from `p` on.
    abbrev Finishes : (fuel : ℕ) → Progress → W → Type 0
    Finishes fuel p w =
        (w' : W) × (write_loop host token ino user offset fuel p w
          ≡ done
              (unmoved (p.total_written + p.remaining) (some (p.current_offset + p.remaining)), w'))
        × (file_of w' ≡ put (file_of w) p.current_offset (drop p.at user))

    -- A last round.
    last_round :
        (fuel : ℕ) (p : Progress) (w w' : W)
        → 0 < fuel
        → p.at + p.remaining ≡ length user
        → p.current_offset + p.remaining < 2 ^ 63
        → p.total_written + p.remaining < 2 ^ 64
        → file_of w' ≡ put (file_of w) p.current_offset (take p.remaining (drop p.at user))
        → (w'' : W) × (write_loop host token ino user offset fuel (advance p.remaining p) w'
            ≡ done (
              unmoved (p.total_written + p.remaining) (some (p.current_offset + p.remaining)),
              w'',
            ))
          × (file_of w'' ≡ put (file_of w) p.current_offset (drop p.at user))
    last_round fuel p w w' some_fuel whole small_offset small_total stored = (
      w',
      loop-finished fuel (advance p.remaining p) w' some_fuel (omega arith)
          ∙ ap₂ (λ t o. done (unmoved t (some o), w')) (omega arith) (omega arith),
      stored
          ∙ ap (put (file_of w) p.current_offset)
              (take_all p.remaining (drop p.at user) (omega (arith, length-drop p.at user))),
    )

    -- A round before others.
    round_before :
        (fuel : ℕ) (p : Progress) (w w' : W)
        → 4096 < p.remaining
        → p.at + p.remaining ≡ length user
        → length user < 2 ^ 63
        → p.current_offset + p.remaining < 2 ^ 63
        → p.total_written + p.remaining < 2 ^ 64
        → file_of w' ≡ put (file_of w) p.current_offset (take 4096 (drop p.at user))
        → Finishes fuel (advance 4096 p) w'
        → (w'' : W) × (write_loop host token ino user offset fuel (advance 4096 p) w'
            ≡ done (
              unmoved (p.total_written + p.remaining) (some (p.current_offset + p.remaining)),
              w'',
            ))
          × (file_of w'' ≡ put (file_of w) p.current_offset (drop p.at user))
    round_before fuel p w w' more whole small small_offset small_total stored (w'', e, k) =
        let bytes = take 4096 (drop p.at user) in
        let size = length-range 4096 p.at user (omega arith) in
        let at' : p.current_offset + length bytes ≡ (p.current_offset + 4096) % 2 ^ 64 =
          omega (arith, size) in
        let rest : drop 4096 (drop p.at user) ≡ drop ((p.at + 4096) % 2 ^ 64) user =
          drop-drop 4096 p.at ((p.at + 4096) % 2 ^ 64) user (omega arith) in
        (
          w'',
          e ∙ ap₂ (λ t o. done (unmoved t (some o), w'')) (omega arith) (omega arith),
          k
              ∙ ap₂ (λ old o. put old o (drop ((p.at + 4096) % 2 ^ 64) user)) stored (sym at')
              ∙ put-put (file_of w) bytes (drop ((p.at + 4096) % 2 ^ 64) user) p.current_offset
              ∙ ap (put (file_of w) p.current_offset)
                  (ap (λ t. bytes ++ t) (sym rest) ∙ take-append-drop 4096 (drop p.at user)),
        )

    any_round :
        (fuel : ℕ) (p : Progress) (w w' : W) (n : ℕ)
        → ((n ≡ 4096) × (4096 < p.remaining)) ⊎ ((n ≡ p.remaining) × (p.remaining ≤ 4096))
        → 0 < fuel
        → p.at + p.remaining ≡ length user
        → length user < 2 ^ 63
        → p.current_offset + p.remaining < 2 ^ 63
        → p.total_written + p.remaining < 2 ^ 64
        → file_of w' ≡ put (file_of w) p.current_offset (take n (drop p.at user))
        → (4096 < p.remaining → Finishes fuel (advance 4096 p) w')
        → (w'' : W) × (write_loop host token ino user offset fuel (advance n p) w'
            ≡ done (
              unmoved (p.total_written + p.remaining) (some (p.current_offset + p.remaining)),
              w'',
            ))
          × (file_of w'' ≡ put (file_of w) p.current_offset (drop p.at user))
    any_round fuel p w w' n (inl (e, more)) some_fuel whole small small_offset small_total stored
          further =
        rw e (
          round_before fuel p w w' more whole small small_offset small_total (rw e at stored)
            (further more))
    any_round fuel p w w' n (inr (e, last)) some_fuel whole small small_offset small_total stored
          further =
        rw e (last_round fuel p w w' some_fuel whole small_offset small_total (rw e at stored))

    write_loop-stores :
        (fuel : ℕ) (p : Progress) (w : W)
        → 0 < p.remaining
        → p.remaining < fuel
        → p.remaining % 4096 ≢ 1
        → p.at + p.remaining ≡ length user
        → length user < 2 ^ 63
        → p.current_offset + p.remaining < 2 ^ 63
        → p.total_written + p.remaining < 2 ^ 64
        → Finishes fuel p w
    unfolding write_loop
    write_loop-stores zero p w some_left enough long whole small small_offset small_total =
        absurd (omega arith)
    write_loop-stores (suc fuel) p w some_left enough long whole small small_offset small_total =
        let go : (p.remaining == 0) ≡ false = ground arith in
        let (w', e, stored) = write_chunk-stores p w (ground arith) (omega arith) (ground arith) in
        rw (go, e)
          (any_round fuel p w w' (chunk_size p.remaining) (chunk_size-cases p.remaining)
            (omega arith) whole small small_offset small_total stored
            (λ more.
              write_loop-stores fuel (advance 4096 p) w' (omega arith) (omega arith) (omega arith)
                (omega arith) small (omega arith) (omega arith)))

  -- Where memory is there, the user's buffer can be read, and the server puts the first `len`
  -- bytes that it decodes from a chunk's Base64 and percent encoding at the chunk's offset and
  -- answers their number, a write of all the user's bytes (at least one, not one more than a
  -- multiple of 4096, the end of the range below 2 ^ 63) through the loop of chunks ends, returns
  -- their number, moves `*offset` to the end of the range, and leaves the server's file as one put
  -- of all the bytes at the offset does.
  pub write-put :
      (user : List ℕ) (offset : ℕ) (w : W)
      → StoresChunks
      → AllBytes user
      → 0 < length user
      → length user % 4096 ≢ 1
      → offset + length user < 2 ^ 63
      → (w' : W) × (write host (some token) ino true user (length user) (some offset) w
          ≡ done (unmoved (length user) (some (offset + length user)), w'))
        × (file_of w' ≡ put (file_of w) offset user)
  unfolding write
  write-put user offset w server all some_left long small =
      let (w', e, stored) =
        write_loop-stores server user offset
          (λ at n. AllBytes-take n (drop at user) (AllBytes-drop at user all)) (length user + 1)
          (first_progress (length user) offset) w some_left (omega arith) long (omega arith)
          (omega arith) (omega arith) (omega arith) in
      (w', e ∙ ap (λ n. done (unmoved n (some (offset + length user)), w')) (omega arith), stored)
