-- ===== src/Ram/Content.antt =====
-- `vtfs_ram_storage_read` and `vtfs_ram_storage_write`. The kernel's memory functions are
-- parameters; offsets and lengths are 64-bit patterns.
use os_course_lab.Base.{
  ℕ, ◌+◌, ◌-◌, ◌*◌, ◌%◌, ◌^◌, ◌≤◌, ◌≡◌, true, false, not, Option, none, some, List, [], Run, done,
  fault, ◌>>=◌, ◌==◌, ltb, if◌then◌else◌, length, take, replicate,
}
use os_course_lab.Base.Buffers.{load_bytes, store_bytes}
use os_course_lab.Interface.{NodeMeta, is_file, Result, ok, err, enomem, enoent, eisdir, efault}
use os_course_lab.Interface.IoParams.{slt, validate_io_params}
use os_course_lab.Ram.State.{Ptr, Payload, Ram, Super, load, update, on_storage}
use os_course_lab.Ram.Find.{find_payload_by_ino}

-- linux/slab.h and linux/uaccess.h. `krealloc` gives the new buffer, or NULL. `copy_from_user`
-- gives the bytes that the destination holds afterwards and the number that was not copied,
-- `copy_to_user` that number alone.
pub record Kernel : Type 0 where
  pub krealloc : List ℕ → ℕ → Option (List ℕ)
  pub copy_from_user : List ℕ → ℕ → List ℕ × ℕ
  pub copy_to_user : List ℕ → ℕ

-- What the kernel documents of them.
pub record IsDocumented (k : Kernel) : Type 0 where
  pub length-krealloc : (old new : List ℕ) (n : ℕ) → k.krealloc old n ≡ some new → length new ≡ n
  pub krealloc_keeps :
      (old new : List ℕ) (n : ℕ)
      → k.krealloc old n ≡ some new
      → length old ≤ n
      → take (length old) new ≡ old
  pub length-copy_from_user : (user : List ℕ) (n : ℕ) → length (k.copy_from_user user n).0 ≡ n
  pub copy_from_user_complete :
      (user : List ℕ) (n : ℕ)
      → (k.copy_from_user user n).1 ≡ 0
      → (k.copy_from_user user n).0 ≡ take n user

-- Twice the size that is wanted, and at least 1024.
abbrev pub new_capacity : ℕ → ℕ
new_capacity new_size =
    let double = (new_size * 2) % 2 ^ 64 in if ltb double 1024 then 1024 else double

-- The buffer from `krealloc`, cleared past the old capacity by `memset`.
abbrev pub clear_new : Payload → (new_capacity : ℕ) → List ℕ → Run (List ℕ)
clear_new p new_capacity new_data =
    if ltb 0 p.capacity
    then store_bytes new_data p.capacity
        (replicate ((new_capacity + 2 ^ 64 - p.capacity) % 2 ^ 64) 0)
    else store_bytes new_data 0 (replicate new_capacity 0)

abbrev pub install : Payload → (new_capacity : ℕ) → Option (List ℕ) → Run (Option Payload)
install p new_capacity none = done none
install p new_capacity (some new_data) = do
  cleared ← clear_new p new_capacity new_data
  done (some (record p { bytes = cleared; capacity = new_capacity }))

-- `meta.size` grows to the end of the write.
abbrev pub extended : NodeMeta → ℕ → NodeMeta
extended m new_size = if slt m.size new_size then record m { size = new_size } else m

-- The bytes that reach the user, as many as the call returns, and the new `*offset`.
pub record Transfer : Type 0 where
  pub moved : List ℕ
  pub offset : ℕ

-- How much can be read: `len`, or what is left of the file.
abbrev pub to_read : (size len offset : ℕ) → ℕ
to_read size len offset =
    let available = (size + 2 ^ 64 - offset) % 2 ^ 64 in
    if ltb len available then len else available

module _ (k : Kernel) where
  -- The copy of `to_read` bytes to the user.
  unfoldable pub copy_out : Payload → (to_read offset : ℕ) → Run (Result Transfer)
  unfolding load_bytes
  copy_out p to_read offset =
      if to_read == 0 then done (ok (record { moved = []; offset = offset })) else do
        out ← load_bytes p.bytes offset to_read
        (if k.copy_to_user out == 0
            then done (ok (record { moved = out; offset = (offset + to_read) % 2 ^ 64 }))
            else done (err efault))

  -- `vtfs_ram_storage_read` on a payload that has been found
  unfoldable pub read_payload : Payload → (len offset : ℕ) → Run (Result Transfer)
  read_payload p len offset =
      if not (is_file p.meta.type)
      then done (err eisdir)
      else elim (validate_io_params offset len false) [
        | err e ↦ done (err e)
        | ok _ ↦
            if not (slt offset p.meta.size)
            then done (ok (record { moved = []; offset = offset }))
            else copy_out p (to_read p.meta.size len offset) offset
      ]

  abbrev pub read_found : (len offset : ℕ) → Ram → Option Ptr → Run (Result Transfer × Ram)
  read_found len offset r none = done (err enoent, r)
  read_found len offset r (some q) = do
    p ← load r.heap q
    answer ← read_payload p len offset
    done (answer, r)

  unfoldable pub read_body : (ino len offset : ℕ) → Ram → Run (Result Transfer × Ram)
  read_body ino len offset r = do
    q ← find_payload_by_ino r.heap r.nodes_head ino
    read_found len offset r q

  unfoldable pub read : (ino len offset : ℕ) → Super → Run (Result Transfer × Super)
  unfolding read_body
  read ino len offset = on_storage (read_body ino len offset)

  -- The part of the write that makes room; NULL from `krealloc` is `none`.
  unfoldable pub grow : Payload → (new_size : ℕ) → Run (Option Payload)
  grow p new_size =
      if not (ltb p.capacity new_size)
      then done (some p)
      else install p (new_capacity new_size) (k.krealloc p.bytes (new_capacity new_size))

  -- The copy into a payload that has room. A copy that fails has still written.
  unfoldable pub fill :
      Payload → (user : List ℕ) → (len offset new_size : ℕ) → Run (Result ℕ × Payload)
  fill p user len offset new_size =
      let (new, left) = k.copy_from_user user len in
      store_bytes p.bytes offset new >>= λ stored.
      if left == 0
      then done (
        ok ((offset + len) % 2 ^ 64),
        record p { bytes = stored; meta = extended p.meta new_size },
      )
      else done (err efault, record p { bytes = stored })

  -- The write once there is room, or the failure to make it.
  abbrev pub write_grown :
      Payload
      → (user : List ℕ) → (len offset new_size : ℕ) → Option Payload
      → Run (Result ℕ × Payload)
  write_grown p user len offset new_size none = done (err enomem, p)
  write_grown p user len offset new_size (some p') = fill p' user len offset new_size

  -- `vtfs_ram_storage_write` on a payload that has been found: the answer is the new `*offset`,
  -- and the call returns `len`.
  unfoldable pub write_payload :
      Payload → (user : List ℕ) → (len offset : ℕ) → Run (Result ℕ × Payload)
  write_payload p user len offset =
      if not (is_file p.meta.type)
      then done (err eisdir, p)
      else elim (validate_io_params offset len true) [
        | err e ↦ done (err e, p)
        | ok none ↦ fault
        | ok (some new_size) ↦ grow p new_size >>= write_grown p user len offset new_size
      ]

  abbrev pub write_found :
      (user : List ℕ) → (len offset : ℕ) → Ram → Option Ptr → Run (Result ℕ × Ram)
  write_found user len offset r none = done (err enoent, r)
  write_found user len offset r (some q) = do
    p ← load r.heap q
    (answer, p') ← write_payload p user len offset
    done (answer, record r { heap = update r.heap q (some p') })

  unfoldable pub write_body : ℕ → (user : List ℕ) → (len offset : ℕ) → Ram → Run (Result ℕ × Ram)
  write_body ino user len offset r = do
    q ← find_payload_by_ino r.heap r.nodes_head ino
    write_found user len offset r q

  unfoldable pub write : ℕ → (user : List ℕ) → (len offset : ℕ) → Super → Run (Result ℕ × Super)
  unfolding write_body
  write ino user len offset = on_storage (write_body ino user len offset)
