-- ===== src/Net/Storage/Write/Ends.antt =====
-- A write comes to an end, whatever fails on its way.
use os_course_lab.Base.{
  ℕ, zero, suc, ◌+◌, ◌*◌, ◌%◌, ◌^◌, ◌≤◌, ◌<◌, ◌≡◌, refl, ap, Bool, true, false, some, List, Run,
  Ensures, Ensures-bind, ltb, ◌==◌, length, arith, Bool-cases, ◌⊎◌, inl, inr,
}
use os_course_lab.Base.Text.{codes}
use os_course_lab.Interface.IoParams.{slt}
use os_course_lab.Net.Base64.{base64_size, base64_encode}
use os_course_lab.Net.Base64.Chars.{AllBytes-base64_encode}
use os_course_lab.Net.Decode.{load_le}
use os_course_lab.Net.Http.Response.{Response, as_int}
use os_course_lab.Net.Storage.{Host, response_memory}
use os_course_lab.Net.Storage.Content.{Moved, ino_len_offset}
use os_course_lab.Net.Storage.Write.{
  chunk_size, Progress, Round, returns, goes_on, leaves, give_up, refuse, finish, advance, data_arg,
  count_written, chunk_answered, chunk_sent, chunk_copied, chunk_read, chunk_allocated, write_chunk,
  next_round, write_loop, first_progress, write,
}
use os_course_lab.Net.Storage.Write.Chunk.{encode_into-fits, encoded_text}

-- An answer without an error holds a number up to `len`, and fits the response buffer.
abbrev pub ReportsAtMost : (len : ℕ) → Response → Type 0
ReportsAtMost len r =
    r.return_value ≡ 0
    → Ensures (λ memory. Ensures (λ written. written ≤ len) (load_le memory 0 8))
        (response_memory 256 r.bytes)

module _ {W : Type 0} (host : Host W) (token : List ℕ) (ino : ℕ) where
  -- What the kernel documents of copy_from_user, and a server whose answers to a write fit the
  -- response buffer and report at most the bytes of the chunk.
  pub record AnswersChunks : Type 0 where
    pub length-copy_from_user :
        (user : List ℕ) (at n : ℕ) (w : W) → length (host.copy_from_user user at n w).0.0 ≡ n
    pub answers :
        (len offset : ℕ) (encoded : List ℕ) (w : W)
        → len ≤ 4096
        → Ensures
            (λ answer. ReportsAtMost len answer.0)
            (host.call token
              (codes "write")
              256
              (ino_len_offset ino len offset (data_arg encoded))
              w)

  module _ (server : AnswersChunks) (user : List ℕ) (len offset : ℕ)
      (small : offset + len < 2 ^ 63) where
    -- The offset stays, or it moves on by the count that is returned.
    abbrev IsMoved : Moved → Type 0
    IsMoved m = (m.offset ≡ some offset) ⊎ ((m.count ≤ len) × (m.offset ≡ some (offset + m.count)))

    record IsProgress (p : Progress) : Type 0 where
      sum : p.total_written + p.remaining ≡ len
      moved : p.current_offset ≡ offset + p.total_written

    abbrev IsRound : Progress → Round → Type 0
    IsRound p (returns m) = IsMoved m
    IsRound p (goes_on p') = IsProgress p' × (p'.remaining < p.remaining)
    IsRound p (leaves p') = IsProgress p'

    finish-IsMoved : (p : Progress) → IsProgress p → IsMoved (finish p)
    finish-IsMoved p h = inr (omega (arith, h.sum), ap some h.moved)

    give_up-IsMoved : (code : ℕ) (p : Progress) → IsMoved (give_up code offset p)
    give_up-IsMoved code p = elim (Bool-cases (ltb 0 p.total_written)) [
      | inl e ↦ rw e (inl refl)
      | inr e ↦ rw e (inl refl)
    ]

    refuse-IsMoved : (code : ℕ) (p : Progress) → IsProgress p → IsMoved (refuse code offset p)
    refuse-IsMoved code p h = elim (Bool-cases (ltb 0 p.total_written)) [
      | inl e ↦ rw e (inr (omega (arith, h.sum), ap some h.moved))
      | inr e ↦ rw e (inl refl)
    ]

    advance-IsProgress :
        (p : Progress) (n : ℕ) → IsProgress p → n ≤ p.remaining → IsProgress (advance n p)
    advance-IsProgress p n h fits = record {
      sum = omega (arith, h.sum);
      moved = omega (arith, h.sum, h.moved);
    }

    count_written-IsRound :
        (p : Progress) (n : ℕ)
        → IsProgress p
        → 0 < p.remaining
        → n ≤ chunk_size p.remaining
        → IsRound p (count_written host token ino user offset p n)
    count_written-IsRound p n h some_left fits =
        let inside : n ≤ p.remaining = ground arith in
        let next = advance-IsProgress p n h inside in
        elim (Bool-cases (slt n (chunk_size p.remaining))) [
          | inl short ↦ rw short next
          | inr full ↦ rw full (next, ground (arith, h.sum))
        ]

    abbrev Goes : Progress → Run (Round × W) → Type 0
    Goes p = Ensures (λ round. IsRound p round.0)

    chunk_size-small : (r : ℕ) → chunk_size r ≤ 4096
    chunk_size-small r = ground arith

    module _ (p : Progress) (h : IsProgress p) (some_left : 0 < p.remaining) where
      Goes-chunk_answered :
          (r : Response) (w : W)
          → ReportsAtMost (chunk_size p.remaining) r
          → Goes p (chunk_answered host token ino user offset p (r, w))
      Goes-chunk_answered r w good = elim (Bool-cases (r.return_value == 0)) [
        | inr bad ↦ rw bad (refuse-IsMoved (as_int r.return_value) p h)
        | inl done_well ↦ rw done_well (
            Ensures-bind
              (λ memory. Ensures (λ written. written ≤ chunk_size p.remaining) (load_le memory 0 8))
              (λ round. IsRound p round.0) (response_memory 256 r.bytes) _
              (λ memory loads.
                Ensures-bind (λ written. written ≤ chunk_size p.remaining)
                  (λ round. IsRound p round.0) (load_le memory 0 8) _
                  (λ written fits. count_written-IsRound p written h some_left fits) loads)
              (good (ground arith)))
      ]

      Goes-chunk_sent :
          (bytes text : List ℕ) (room : Bool × W)
          → base64_encode bytes (base64_size (chunk_size p.remaining)) ≡ some text
          → length text + 1 ≡ base64_size (chunk_size p.remaining)
          → Goes p (chunk_sent host token ino user offset p text room)
      Goes-chunk_sent bytes text (false, w) made size = give_up-IsMoved _ p
      Goes-chunk_sent bytes text (true, w) made size =
          let n = chunk_size p.remaining in
          rw
            (encode_into-fits text n (AllBytes-base64_encode bytes text (base64_size n) made) size
              (chunk_size-small p.remaining))
            (Ensures-bind (λ (answer : Response × W). ReportsAtMost n answer.0)
              (λ round. IsRound p round.0) _ _
              (λ answer good. Goes-chunk_answered answer.0 answer.1 good)
              (server.answers n p.current_offset _ (host.kfree w) (chunk_size-small p.remaining)))

      Goes-chunk_copied :
          (bytes : List ℕ) (room : Bool × W)
          → length bytes ≡ chunk_size p.remaining
          → Goes p (chunk_copied host token ino user offset p bytes room)
      Goes-chunk_copied bytes (false, w) size = give_up-IsMoved _ p
      Goes-chunk_copied bytes (true, w) size =
          let n = chunk_size p.remaining in
          let (text, made, text_size) = encoded_text bytes n size (chunk_size-small p.remaining) in
          rw made (
            Goes-chunk_sent bytes text (host.kmalloc ((base64_size n * 3) % 2 ^ 64) (host.kfree w))
              made text_size)

      Goes-chunk_read :
          (copied : (List ℕ × ℕ) × W)
          → length copied.0.0 ≡ chunk_size p.remaining
          → Goes p (chunk_read host token ino user offset p copied)
      Goes-chunk_read ((bytes, left), w) size = elim (Bool-cases (left == 0)) [
        | inl all ↦
            rw all
              (Goes-chunk_copied bytes (host.kmalloc (base64_size (chunk_size p.remaining)) w) size)
        | inr some_not ↦ rw some_not (give_up-IsMoved _ p)
      ]

      Goes-chunk_allocated :
          (room : Bool × W) → Goes p (chunk_allocated host token ino user offset p room)
      Goes-chunk_allocated (false, w) = give_up-IsMoved _ p
      Goes-chunk_allocated (true, w) =
          Goes-chunk_read (host.copy_from_user user p.at (chunk_size p.remaining) w)
            (server.length-copy_from_user user p.at (chunk_size p.remaining) w)

      Goes-write_chunk : (w : W) → Goes p (write_chunk host token ino user offset p w)
      unfolding write_chunk
      Goes-write_chunk w = Goes-chunk_allocated (host.kmalloc (chunk_size p.remaining) w)

    next_round-IsMoved :
        (next : Progress → W → Run (Moved × W)) (p : Progress) (round : Round) (w : W)
        → IsRound p round
        → ((p' : Progress) (w' : W)
            → IsProgress p'
            → p'.remaining < p.remaining
            → Ensures (λ moved. IsMoved moved.0) (next p' w'))
        → Ensures (λ moved. IsMoved moved.0) (next_round host token ino user offset next (round, w))
    next_round-IsMoved next p (returns m) w good further = good
    next_round-IsMoved next p (goes_on p') w good further = further p' w good.0 good.1
    next_round-IsMoved next p (leaves p') w good further = finish-IsMoved p' good

    write_loop_ends :
        (fuel : ℕ) (p : Progress) (w : W)
        → IsProgress p
        → p.remaining < fuel
        → Ensures (λ moved. IsMoved moved.0) (write_loop host token ino user offset fuel p w)
    unfolding write_loop
    write_loop_ends zero p w h enough = absurd (omega arith)
    write_loop_ends (suc fuel) p w h enough = elim (Bool-cases (p.remaining == 0)) [
      | inl stop ↦ rw stop (finish-IsMoved p h)
      | inr go ↦ rw go (
          Ensures-bind (λ round. IsRound p round.0) (λ moved. IsMoved moved.0)
            (write_chunk host token ino user offset p w) _
            (λ round good.
              next_round-IsMoved (write_loop host token ino user offset fuel) p round.0 round.1 good
                (λ p' w' h' less. write_loop_ends fuel p' w' h' (omega arith)))
            (Goes-write_chunk p h (ground arith) w))
    ]

  -- Where copy_from_user fills its buffer as documented, and the calls for a chunk end and report
  -- at most the bytes of the chunk, a write of any length with the end of its range below 2 ^ 63
  -- ends without a fault, whichever allocation, copy or request fails and however little the
  -- server stores; `*offset` then stays, or has moved on by the returned count, which is at most
  -- the length.
  pub write_ends :
      (user : List ℕ) (len offset : ℕ) (w : W)
      → AnswersChunks
      → offset + len < 2 ^ 63
      → Ensures
          (λ moved.
            (moved.0.offset ≡ some offset)
            ⊎ ((moved.0.count ≤ len) × (moved.0.offset ≡ some (offset + moved.0.count))))
          (write host (some token) ino true user len (some offset) w)
  unfolding write
  write_ends user len offset w server small =
      write_loop_ends server user len offset small (len + 1) (first_progress len offset) w
        (record { sum = omega arith; moved = omega arith }) (omega arith)
