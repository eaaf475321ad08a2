-- ===== src/Vfs/Files.antt =====
-- The file operations: `vtfs_read`, `vtfs_write` and `vtfs_llseek`. Positions and sizes are 64-bit
-- patterns of `loff_t`.
pub mod Seek
pub mod OnRam
pub mod NoBytes
pub mod Reads
use os_course_lab.Base.{
  ℕ, ◌+◌, ◌%◌, ◌^◌, Bool, true, false, Option, none, some, List, Run, done, fault, ◌>>=◌, ◌==◌,
  if◌then◌else◌, length,
}
use os_course_lab.Interface.{Result, ok, err, einval}
use os_course_lab.Interface.IoParams.{is_negative, slt, validate_io_params}

-- An open file: the fields of `struct file` and of its inode that the operations use.
pub record File : Type 0 where
  pub f_pos : ℕ
  pub i_ino : ℕ
  pub i_size : ℕ

-- What a storage answers: the count that it returns, the bytes that reach the user, and `pos`.
pub record Moved : Type 0 where
  pub count : ℕ
  pub bytes : List ℕ
  pub pos : ℕ

-- The two entries of `struct vtfs_storage_ops` that move bytes, on the storage's state.
pub record StorageOps (S : Type 0) : Type 0 where
  pub read : (ino len pos : ℕ) → S → Run (Result Moved × S)
  pub write : (ino : ℕ) → List ℕ → (len pos : ℕ) → S → Run (Result Moved × S)

-- What a call leaves: its answer, `*offset` where the pointer is given, and the file.
pub record Called : Type 0 where
  pub answer : Result Moved
  pub offset : Option ℕ
  pub file : File

-- `(offset) ? *offset : filp->f_pos`
abbrev pub start : Option ℕ → File → ℕ
start none f = f.f_pos
start (some o) f = o

abbrev pub moved_to : Option ℕ → ℕ → Option ℕ
moved_to none pos = none
moved_to (some o) pos = some pos

-- vtfs_update_inode_size
abbrev pub update_inode_size : File → ℕ → File
update_inode_size f new_size = if slt f.i_size new_size then record f { i_size = new_size } else f

-- The code of the two calls after the storage has answered.
abbrev pub after_read : Option ℕ → File → Result Moved → Called
after_read offset f (err e) = record { answer = err e; offset = offset; file = f }
after_read offset f (ok m) =
    if slt 0 m.count
    then record { answer = ok m; offset = moved_to offset m.pos; file = record f { f_pos = m.pos } }
    else record { answer = ok m; offset = offset; file = f }

abbrev pub after_write : Option ℕ → File → Result Moved → Called
after_write offset f (err e) = record { answer = err e; offset = offset; file = f }
after_write offset f (ok m) =
    let old_pos = start offset f in
    if slt 0 m.count
    then record {
      answer = ok m;
      offset = moved_to offset m.pos;
      file = update_inode_size (record f { f_pos = m.pos }) ((old_pos + m.count) % 2 ^ 64);
    }
    else record { answer = ok m; offset = offset; file = f }

module _ {S : Type 0} (ops : StorageOps S) where
  unfoldable pub vtfs_read : File → (len : ℕ) → Option ℕ → S → Run (Called × S)
  vtfs_read f len offset s = do
    (answer, s') ← ops.read f.i_ino len (start offset f) s
    done (after_read offset f answer, s')

  -- The write once its range has been checked.
  abbrev pub write_checked :
      File → List ℕ → (len : ℕ) → Option ℕ → S → Result (Option ℕ) → Run (Called × S)
  write_checked f user len offset s (err e) =
      done (record { answer = err e; offset = offset; file = f }, s)
  write_checked f user len offset s (ok new_size) = do
    (answer, s') ← ops.write f.i_ino user len (start offset f) s
    done (after_write offset f answer, s')

  unfoldable pub vtfs_write : File → List ℕ → (len : ℕ) → Option ℕ → S → Run (Called × S)
  vtfs_write f user len offset s =
      write_checked f user len offset s (validate_io_params (start offset f) len true)

-- SEEK_SET, SEEK_CUR and SEEK_END of linux/fs.h are 0, 1 and 2.
abbrev pub seek_to : (newpos : ℕ) → File → Result ℕ × File
seek_to newpos f =
    if is_negative newpos then (err einval, f) else (ok newpos, record f { f_pos = newpos })

unfoldable pub vtfs_llseek : File → (offset whence : ℕ) → Result ℕ × File
vtfs_llseek f offset whence =
    if whence == 0
    then seek_to offset f
    else if whence == 1
    then seek_to ((f.f_pos + offset) % 2 ^ 64) f
    else if whence == 2
    then seek_to ((f.i_size + offset) % 2 ^ 64) f
    else (err einval, f)
