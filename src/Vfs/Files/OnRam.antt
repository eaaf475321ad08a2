-- ===== src/Vfs/Files/OnRam.antt =====
-- The file operations over the storage in memory.
use os_course_lab.Base.{
  ℕ, ◌+◌, ◌%◌, ◌^◌, ◌<◌, ◌≡◌, refl, inl, inr, true, Option, none, some, List, [], ◌∙◌, Run, done,
  fault, ◌>>=◌, length, arith, Ensures, max, Bool-cases,
}
use os_course_lab.Interface.{Errno, Result, ok, err}
use os_course_lab.Interface.IoParams.{validate_io_params, slt}
use os_course_lab.Ram.State.{Payload, Ram, Super, on_storage, back}
use os_course_lab.Ram.Content
use os_course_lab.Ram.Content.{Kernel, IsDocumented, Transfer, read_body, write_body}
use os_course_lab.Ram.WellFormed.{IsWellFormed}
use os_course_lab.Ram.View.{inode, inode-inv}
use os_course_lab.Ram.Laws.Write.{WriteRefused}
use os_course_lab.Ram.Laws.Update.{IsUpdated, WroteTo, write_body-WroteTo}
use os_course_lab.Vfs.Files.{
  File, Moved, StorageOps, Called, start, moved_to, after_write, vtfs_write, write_checked,
}

-- The entries of `vtfs_ram_storage_ops`: the read returns the number of bytes, the write `len`.
abbrev pub read_answer : Result Transfer → Result Moved
read_answer (err e) = err e
read_answer (ok t) = ok (record { count = length t.moved; bytes = t.moved; pos = t.offset })

abbrev pub write_answer : (len : ℕ) → Result ℕ → Result Moved
write_answer len (err e) = err e
write_answer len (ok pos) = ok (record { count = len; bytes = []; pos = pos })

unfoldable pub ram_ops : Kernel → StorageOps Super
ram_ops k = record {
  read = λ ino len pos sb. do
    (answer, sb') ← Content.read k ino len pos sb
    done (read_answer answer, sb');
  write = λ ino user len pos sb. do
    (answer, sb') ← Content.write k ino user len pos sb
    done (write_answer len answer, sb');
}

abbrev pub mounted : Ram → Super
mounted r = record { s_fs_info = some r.storage; heap = r.heap }

-- The file's size, as the open file has it, is the size of the inode.
abbrev pub InSync : File → Ram → Type 0
InSync f r = (p : Payload) × (inode r f.i_ino ≡ some p) × (p.meta.size ≡ f.i_size)

-- The file where the storage has taken `len` bytes.
abbrev pub moved_file : File → (pos len : ℕ) → File
moved_file f pos len = record f { f_pos = pos + len; i_size = max f.i_size (pos + len) }

-- The position at which a call is meant to work: the one that it is given, or the file's own.
abbrev pub position : Option ℕ → File → ℕ
position none f = f.f_pos
position (some o) f = o

-- What is meant to stand at the caller's pointer afterwards, if there is one.
abbrev pub written_to : Option ℕ → (end : ℕ) → Option ℕ
written_to none end = none
written_to (some o) end = some end

pub start-position : (offset : Option ℕ) (f : File) → start offset f ≡ position offset f
start-position none f = refl
start-position (some o) f = refl

pub moved_to-written_to :
    (offset : Option ℕ) (pos : ℕ) → moved_to offset pos ≡ written_to offset pos
moved_to-written_to none pos = refl
moved_to-written_to (some o) pos = refl

after_write-moved :
    (f : File) (offset : Option ℕ) (len pos' : ℕ)
    → 0 < len
    → position offset f + len < 2 ^ 63
    → f.i_size < 2 ^ 63
    → pos' ≡ position offset f + len
    → after_write offset f (write_answer len (ok pos')) ≡ record {
      answer = write_answer len (ok pos');
      offset = written_to offset (position offset f + len);
      file = moved_file f (position offset f) len;
    }
after_write-moved f offset len pos' some_bytes fits small e =
    let positive : slt 0 len ≡ true = ground arith in
    let whole : (position offset f + len) % 2 ^ 64 ≡ position offset f + len = omega arith in
    elim (Bool-cases (slt f.i_size (position offset f + len))) [
      | inl longer ↦
          let most : max f.i_size (position offset f + len) ≡ position offset f + len =
            ground arith in
          rw
            (
              start-position offset f,
              e,
              positive,
              whole,
              longer,
              most,
              moved_to-written_to offset (position offset f + len),
            )
            refl
      | inr inside ↦
          let most : max f.i_size (position offset f + len) ≡ f.i_size = ground arith in
          rw
            (
              start-position offset f,
              e,
              positive,
              whole,
              inside,
              most,
              moved_to-written_to offset (position offset f + len),
            )
            refl
    ]

-- The file after a write, or after a refusal.
abbrev pub Moves : File → Option ℕ → ℕ → Result Moved → Called → Type 0
Moves f offset len (err e) c = (c.file ≡ f) × (c.offset ≡ offset)
Moves f offset len (ok m) c =
    (m.count ≡ len)
    × (c.file.f_pos ≡ position offset f + len)
    × (c.offset ≡ written_to offset (position offset f + len))
    × (c.file.i_size ≡ max f.i_size (position offset f + len))

abbrev pub WroteFile : File → Option ℕ → (len : ℕ) → Called × Super → Type 0
WroteFile f offset len (c, sb') =
    (r' : Ram) × (sb' ≡ mounted r')
    × IsWellFormed r'
    × InSync c.file r'
    × Moves f offset len c.answer c

pub refused_size :
    (k : Kernel) (e : Errno) (p p' : Payload) (user : List ℕ) (len offset : ℕ)
    → WriteRefused k e p user len offset p'
    → p'.meta.size ≡ p.meta.size
refused_size k e p p' user len offset why = ground (arith, why)

module _ (r : Ram) (w : IsWellFormed r) (f : File) (sync : InSync f r) where
  -- The inode that an update leaves under the file's number.
  pub updated_inode :
      (p p' : Payload) (r' : Ram)
      → inode r f.i_ino ≡ some p
      → IsUpdated p p' r r'
      → (inode r' f.i_ino ≡ some p') × (p.meta.size ≡ f.i_size) × (p.meta.size < 2 ^ 63)
  updated_inode p p' r' is updated =
      let (b, now, size) = sync in
      let (n, found, at, loads, nn, number) = inode-inv r w f.i_ino p is in
      let same : b ≡ p = ground (arith, now, is) in
      (
        ground (arith, updated.inodes f.i_ino, number),
        rw (← same) size,
        (w.payloads n.payload p at).signed,
      )

module _ (k : Kernel) (ok_k : IsDocumented k) (r : Ram) (w : IsWellFormed r) (f : File)
    (sync : InSync f r) (user : List ℕ) (len : ℕ) (offset : Option ℕ)
    (ho : position offset f < 2 ^ 64) (pos : 0 < len) (hl : len < 2 ^ 63) where
  after_storage :
      (answer : Result ℕ) (r' : Ram)
      → WroteTo k f.i_ino user len (position offset f) r (answer, r')
      → WroteFile f offset len (after_write offset f (write_answer len answer), mounted r')
  after_storage (ok pos') r' (p, p', w', is, off, written, same, updated) =
      let (now, size, signed) = updated_inode r w f sync p p' r' is updated in
      rw (after_write-moved f offset len pos' pos written.fits (omega (arith, size, signed)) off)
        (r', refl, w', (p', now, omega (arith, written.size, size)), (refl, refl, refl, refl))
  after_storage (err e) r' (inl (_, none_there, same)) =
      let (b, now, size) = sync in absurd (ground (arith, now, none_there))
  after_storage (err e) r' (inr (p, p', w', is, why, same, updated)) =
      let (now, size, signed) = updated_inode r w f sync p p' r' is updated in
      (
        r',
        refl,
        w',
        (p', now, refused_size k e p p' user len (position offset f) why ∙ size),
        (refl, refl),
      )

  through :
      (m : Run (Result ℕ × Ram))
      → Ensures (WroteTo k f.i_ino user len (position offset f) r) m
      → Ensures (WroteFile f offset len) (
          back m
          >>= (λ (answer, s'). done (write_answer len answer, s'))
          >>= (λ (answer, s'). done (after_write offset f answer, s')))
  through (done (answer, r')) wrote = after_storage answer r' wrote
  through fault wrote = wrote

  checked :
      (range : Result (Option ℕ))
      → Ensures
          (WroteFile f offset len)
          (write_checked (ram_ops k) f user len offset (mounted r) range)
  unfolding ram_ops Content.write on_storage
  checked (err e) = (r, refl, w, sync, (refl, refl))
  checked (ok _) = rw (start-position offset f) (
      through (write_body k f.i_ino user len (position offset f) r)
        (write_body-WroteTo k ok_k r w f.i_ino user len (position offset f) ho hl))

  -- With a documented kernel and a well-formed storage mounted, for an open file whose size is its
  -- inode's, a write of 1 to 2 ^ 63 - 1 bytes at a position below 2 ^ 64 never faults, keeps the
  -- storage well formed and the open file's size equal to the inode's. Where it succeeds it
  -- answers the length, moves the position, and `*offset` where it is given, to the end of the
  -- range, and the size becomes the larger of the old size and that end; where it fails the open
  -- file and `*offset` stay.
  pub vtfs_write-WroteFile :
      Ensures (WroteFile f offset len) (vtfs_write (ram_ops k) f user len offset (mounted r))
  unfolding vtfs_write
  vtfs_write-WroteFile = checked (validate_io_params (start offset f) len true)
