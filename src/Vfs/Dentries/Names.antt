-- ===== src/Vfs/Dentries/Names.antt =====
-- `vtfs_lookup`, `vtfs_create`, `vtfs_unlink`, `vtfs_mkdir`, `vtfs_rmdir` and `vtfs_link`. `parent`
-- is the address of the parent's inode, `name` the child's name, and `q` what `new_inode` returns.
use os_course_lab.Base.{
  ℕ, ◌+◌, ◌-◌, ◌%◌, ◌^◌, Bool, Option, none, some, List, Run, done, ◌>>=◌, ◌==◌, if◌then◌else◌,
  bit_and,
}
use os_course_lab.Interface.{NodeMeta, is_dir}
use os_course_lab.Net.Storage.{Reply, enomem_code, enoent_code}
use os_course_lab.Net.Http.Response.{neg}
use os_course_lab.Ram.Mount.{s_ifdir}
use os_course_lab.Vfs.Dentries.{
  Ptr, null, Inode, NameOps, Vfs, written, load_inode, put_inode, dir_inode, file_inode,
}

-- What a call leaves: its return value, the inode that it put behind the child's dentry, and the
-- state.
pub record Placed (S : Type 0) : Type 0 where
  pub code : ℕ
  pub d_inode : Option Ptr
  pub vfs : Vfs S

module _ {S : Type 0} where
  -- A return without a new inode behind the dentry.
  abbrev pub nothing_placed : (code : ℕ) → (Ptr → Option Inode) → S → Placed S
  nothing_placed code inodes s = record {
    code = code;
    d_inode = none;
    vfs = record { inodes = inodes; storage = s };
  }

  -- d_add of a new inode
  abbrev pub d_add : Ptr → Inode → (Ptr → Option Inode) → S → Placed S
  d_add q inode inodes s = record {
    code = 0;
    d_inode = some q;
    vfs = record { inodes = put_inode inodes q (some inode); storage = s };
  }

module _ {S : Type 0} (ops : NameOps S) where
  -- A regular file: its links are counted by the storage.
  abbrev pub add_file : Ptr → NodeMeta → (Ptr → Option Inode) → S → Run (Placed S)
  add_file q meta inodes s = do
    (link_count, s') ← ops.count_links meta.ino s
    done (d_add q (file_inode meta link_count) inodes s')

  -- From the storage's answer to a lookup on.
  abbrev pub lookup_answered : Ptr → (Ptr → Option Inode) → Reply NodeMeta × S → Run (Placed S)
  lookup_answered q inodes (answer, s) =
      if answer.code == 0
      then (do
        meta ← written answer.out
        (if q == null
            then done (nothing_placed 0 inodes s)
            else if is_dir meta.type
            then done (d_add q (dir_inode meta) inodes s)
            else add_file q meta inodes s))
      else done (nothing_placed 0 inodes s)

  unfoldable pub vtfs_lookup : (q parent : Ptr) → (name : List ℕ) → Vfs S → Run (Placed S)
  vtfs_lookup q parent name v = do
    dir ← load_inode v.inodes parent
    answer ← ops.lookup dir.i_ino name v.storage
    lookup_answered q v.inodes answer

  -- From the storage's answer to a creation on; `place` puts the new inode behind the dentry.
  abbrev pub made_answered :
      (place : NodeMeta → S → Run (Placed S))
      → Ptr
      → (Ptr → Option Inode)
      → Reply NodeMeta × S
      → Run (Placed S)
  made_answered place q inodes (answer, s) =
      if answer.code == 0
      then (do
        meta ← written answer.out
        (if q == null then done (nothing_placed enomem_code inodes s) else place meta s))
      else done (nothing_placed answer.code inodes s)

  unfoldable pub vtfs_create :
      (q parent : Ptr) → (name : List ℕ) → (mode : ℕ) → Vfs S → Run (Placed S)
  vtfs_create q parent name mode v = do
    dir ← load_inode v.inodes parent
    answer ← ops.create_file dir.i_ino name mode v.storage
    made_answered (λ meta s. add_file q meta v.inodes s) q v.inodes answer

  -- The code is the argument of ERR_PTR, and 0 stands for NULL.
  unfoldable pub vtfs_mkdir :
      (q parent : Ptr) → (name : List ℕ) → (mode : ℕ) → Vfs S → Run (Placed S)
  vtfs_mkdir q parent name mode v = do
    dir ← load_inode v.inodes parent
    answer ← ops.mkdir dir.i_ino name mode v.storage
    made_answered (λ meta s. done (d_add q (dir_inode meta) v.inodes s)) q v.inodes answer

  -- drop_nlink, on a 32-bit counter
  abbrev pub drop_nlink : Inode → Inode
  drop_nlink i = record i { i_nlink = (i.i_nlink + 2 ^ 32 - 1) % 2 ^ 32 }

  abbrev pub drop_link : Option Ptr → (Ptr → Option Inode) → Run (Ptr → Option Inode)
  drop_link none inodes = done inodes
  drop_link (some target) inodes = do
    i ← load_inode inodes target
    done (put_inode inodes target (some (drop_nlink i)))

  abbrev pub unlink_answered : (child : Option Ptr) → (Ptr → Option Inode) → ℕ × S → Run (ℕ × Vfs S)
  unlink_answered child inodes (code, s) =
      if code == 0
      then (do inodes' ← drop_link child inodes; done (0, record { inodes = inodes'; storage = s }))
      else done (code, record { inodes = inodes; storage = s })

  -- `child` is the inode behind the child's dentry.
  unfoldable pub vtfs_unlink :
      (parent : Ptr) → (child : Option Ptr) → (name : List ℕ) → Vfs S → Run (ℕ × Vfs S)
  vtfs_unlink parent child name v = do
    dir ← load_inode v.inodes parent
    answer ← ops.unlink dir.i_ino name v.storage
    unlink_answered child v.inodes answer

  unfoldable pub vtfs_rmdir : (parent : Ptr) → (name : List ℕ) → Vfs S → Run (ℕ × Vfs S)
  vtfs_rmdir parent name v = do
    dir ← load_inode v.inodes parent
    (code, s) ← ops.rmdir dir.i_ino name v.storage
    done (code, record { inodes = v.inodes; storage = s })

  -- S_ISDIR
  abbrev pub s_isdir : (mode : ℕ) → Bool
  s_isdir mode = bit_and mode 0o170000 == s_ifdir

  abbrev pub link_answered : (target : Ptr) → Inode → (Ptr → Option Inode) → ℕ × S → Run (Placed S)
  link_answered target i inodes (code, s) =
      if code == 0
      then (do
        (link_count, s') ← ops.count_links i.i_ino s
        done (d_add target (record i { i_nlink = link_count }) inodes s'))
      else done (nothing_placed code inodes s)

  -- `old` is the inode behind the old dentry, which the new one gets too.
  unfoldable pub vtfs_link :
      (old : Option Ptr) → (parent : Ptr) → (name : List ℕ) → Vfs S → Run (Placed S)
  vtfs_link none parent name v = done (nothing_placed enoent_code v.inodes v.storage)
  vtfs_link (some target) parent name v = do
    i ← load_inode v.inodes target
    (if s_isdir i.i_mode then done (nothing_placed (neg 1) v.inodes v.storage) else (do
      dir ← load_inode v.inodes parent
      answer ← ops.link i.i_ino dir.i_ino name v.storage
      link_answered target i v.inodes answer))
