-- ===== src/Vfs/Files/NoBytes.antt =====
-- The write of no bytes, which takes another way than the others through `vtfs_write`.
use os_course_lab.Base.{
  ℕ, ◌^◌, ◌<◌, ◌≡◌, refl, inl, inr, true, Option, some, List, ◌∙◌, Run, done, fault, ◌>>=◌, arith,
  Ensures, max,
}
use os_course_lab.Interface.{Result, ok, err}
use os_course_lab.Interface.IoParams.{validate_io_params}
use os_course_lab.Ram.State.{Payload, Ram, Super, on_storage, back}
use os_course_lab.Ram.Content
use os_course_lab.Ram.Content.{Kernel, IsDocumented, write_body}
use os_course_lab.Ram.WellFormed.{IsWellFormed}
use os_course_lab.Ram.View.{inode}
use os_course_lab.Ram.Laws.Update.{WroteTo, write_body-WroteTo}
use os_course_lab.Vfs.Files.{File, Moved, Called, start, after_write, vtfs_write, write_checked}
use os_course_lab.Vfs.Files.OnRam.{
  ram_ops, mounted, write_answer, InSync, updated_inode, refused_size, position, start-position,
}

-- The size of the inode after the call.
abbrev pub size_left : File → Option ℕ → Result Moved → ℕ
size_left f offset (err e) = f.i_size
size_left f offset (ok m) = max f.i_size (position offset f)

abbrev pub WroteNothing : File → Option ℕ → Called × Super → Type 0
WroteNothing f offset (c, sb') =
    (c.file ≡ f)
    × (c.offset ≡ offset)
    × ((r' : Ram) × (p' : Payload) × (sb' ≡ mounted r')
        × (inode r' f.i_ino ≡ some p')
        × (p'.meta.size ≡ size_left f offset c.answer))

module _ (k : Kernel) (ok_k : IsDocumented k) (r : Ram) (w : IsWellFormed r) (f : File)
    (sync : InSync f r) (user : List ℕ) (offset : Option ℕ) (ho : position offset f < 2 ^ 64) where
  after_storage :
      (answer : Result ℕ) (r' : Ram)
      → WroteTo k f.i_ino user 0 (position offset f) r (answer, r')
      → WroteNothing f offset (after_write offset f (write_answer 0 answer), mounted r')
  after_storage (ok pos') r' (p, p', w', is, off, written, same, updated) =
      let (now, size, signed) = updated_inode r w f sync p p' r' is updated in
      (refl, refl, (r', p', refl, now, omega (arith, written.size, size)))
  after_storage (err e) r' (inl (_, none_there, same)) =
      let (b, now, size) = sync in absurd (ground (arith, now, none_there))
  after_storage (err e) r' (inr (p, p', w', is, why, same, updated)) =
      let (now, size, signed) = updated_inode r w f sync p p' r' is updated in
      (refl, refl, (r', p', refl, now, refused_size k e p p' user 0 (position offset f) why ∙ size))

  through :
      (m : Run (Result ℕ × Ram))
      → Ensures (WroteTo k f.i_ino user 0 (position offset f) r) m
      → Ensures (WroteNothing f offset) (
          back m
          >>= (λ (answer, s'). done (write_answer 0 answer, s'))
          >>= (λ (answer, s'). done (after_write offset f answer, s')))
  through (done (answer, r')) wrote = after_storage answer r' wrote
  through fault wrote = wrote

  checked :
      (range : Result (Option ℕ))
      → Ensures
          (WroteNothing f offset)
          (write_checked (ram_ops k) f user 0 offset (mounted r) range)
  unfolding ram_ops Content.write on_storage
  checked (err e) = let (p, now, size) = sync in (refl, refl, (r, p, refl, now, size))
  checked (ok _) = rw (start-position offset f) (
      through (write_body k f.i_ino user 0 (position offset f) r)
        (write_body-WroteTo k ok_k r w f.i_ino user 0 (position offset f) ho (omega arith)))

  -- With a documented kernel and a well-formed storage mounted, for an open file whose size is its
  -- inode's, a write of no bytes at a position below 2 ^ 64 never faults and leaves the open file
  -- and `*offset`; where it succeeds, the size of the inode becomes the larger of the file's size
  -- and the position, and where it fails it stays.
  pub vtfs_write-WroteNothing :
      Ensures (WroteNothing f offset) (vtfs_write (ram_ops k) f user 0 offset (mounted r))
  unfolding vtfs_write
  vtfs_write-WroteNothing = checked (validate_io_params (start offset f) 0 true)
