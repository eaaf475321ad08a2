-- ===== src/Vfs/Dentries/Listing.antt =====
-- `vtfs_iterate`, which lists one entry per call.
use os_course_lab.Base.{
  ℕ, ◌+◌, ◌-◌, ◌%◌, ◌^◌, Bool, true, false, Option, none, some, List, Run, done, ◌>>=◌, ◌==◌,
  if◌then◌else◌,
}
use os_course_lab.Base.Text.{codes}
use os_course_lab.Interface.{Dirent, is_dir}
use os_course_lab.Net.Storage.{Reply}
use os_course_lab.Vfs.Dentries.{NameOps, written}

-- What `dir_emit` is given; `is_dt_dir` is DT_DIR, else DT_REG.
pub record Entry : Type 0 where
  pub name : List ℕ
  pub ino : ℕ
  pub is_dt_dir : Bool

-- An open directory: `filp->f_pos` and `ctx->pos`, and the numbers of the inodes behind its dentry
-- and the parent's dentry.
pub record Directory : Type 0 where
  pub f_pos : ℕ
  pub pos : ℕ
  pub ino : ℕ
  pub parent_ino : ℕ

-- `ctx->pos++` and `filp->f_pos = ctx->pos`
abbrev pub moved_on : Directory → Directory
moved_on d = record d { f_pos = (d.pos + 1) % 2 ^ 64; pos = (d.pos + 1) % 2 ^ 64 }

module _ {S : Type 0} (ops : NameOps S) where
  -- What a call leaves: the entry that the caller took, the directory and the storage.
  abbrev pub Listed : Type 0
  Listed = Option Entry × Directory × S

  -- `accepts` is the answer of `dir_emit`.
  abbrev pub emit : (accepts : Bool) → Entry → Directory → S → Listed
  emit true e d s = (some e, moved_on d, s)
  emit false e d s = (none, d, s)

  abbrev pub iterate_answered : (accepts : Bool) → Directory → Reply (Dirent × ℕ) × S → Run Listed
  iterate_answered accepts d (answer, s) =
      if answer.code == 0
      then (do
        (dirent, offset) ← written answer.out
        done (
            emit accepts
              (record { name = dirent.name; ino = dirent.ino; is_dt_dir = is_dir dirent.type }) d
              s))
      else done (none, d, s)

  unfoldable pub vtfs_iterate : (accepts : Bool) → Directory → S → Run Listed
  vtfs_iterate accepts d s =
      if d.f_pos == 0
      then done (emit accepts (record { name = codes "."; ino = d.ino; is_dt_dir = true }) d s)
      else if d.f_pos == 1
      then done
          (emit accepts (record { name = codes ".."; ino = d.parent_ino; is_dt_dir = true }) d s)
      else (do
        answer ← ops.iterate_dir d.ino ((d.f_pos + 2 ^ 64 - 2) % 2 ^ 64) s
        iterate_answered accepts d answer)
