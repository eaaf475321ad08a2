-- ===== src/Vfs/Dentries/Mount.antt =====
-- `vtfs_fill_super`, `vtfs_kill_sb` and the module's entry points.
use os_course_lab.Base.{
  ℕ, Bool, true, false, Option, none, some, List, Run, done, ◌>>=◌, ◌==◌, if◌then◌else◌, str_eq,
}
use os_course_lab.Base.Text.{codes}
use os_course_lab.Interface.{NodeMeta}
use os_course_lab.Net.Storage.{Reply, enomem_code}
use os_course_lab.Vfs.Dentries.{
  Ptr, null, Inode, NameOps, Vfs, written, load_inode, put_inode, dir_inode,
}

-- What `vtfs_fill_super` leaves: its return value, `sb->s_root` as the root's inode, and the state.
pub record Filled (S : Type 0) : Type 0 where
  pub code : ℕ
  pub s_root : Option Ptr
  pub vfs : Vfs S

-- iput of an inode that has one reference: it goes, and an inode that is gone is a fault.
unfoldable pub iput : (Ptr → Option Inode) → Ptr → Run (Ptr → Option Inode)
iput inodes q = do i ← load_inode inodes q; done (put_inode inodes q none)

module _ {S : Type 0} (ops : NameOps S) where
  abbrev pub not_filled : (code : ℕ) → (Ptr → Option Inode) → S → Filled S
  not_filled code inodes s = record {
    code = code;
    s_root = none;
    vfs = record { inodes = inodes; storage = s };
  }

  -- d_make_root gives the root's dentry or, as the kernel documents, drops the inode.
  abbrev pub make_root : (made : Bool) → Ptr → (Ptr → Option Inode) → S → Run (Filled S)
  make_root true q inodes s =
      done (record { code = 0; s_root = some q; vfs = record { inodes = inodes; storage = s } })
  make_root false q inodes s = do
    dropped ← iput inodes q
    inodes' ← iput dropped q
    s' ← ops.shutdown s
    done (not_filled enomem_code inodes' s')

  -- From the storage's answer to get_root on.
  abbrev pub root_answered :
      (made : Bool) → Ptr → (Ptr → Option Inode) → Reply NodeMeta × S → Run (Filled S)
  root_answered made q inodes (answer, s) =
      if answer.code == 0
      then (do
        meta ← written answer.out
        (if q == null
            then (do s' ← ops.shutdown s; done (not_filled enomem_code inodes s'))
            else make_root made q (put_inode inodes q (some (dir_inode meta))) s))
      else (do s' ← ops.shutdown s; done (not_filled answer.code inodes s'))

  abbrev pub super_initialized : (made : Bool) → Ptr → (Ptr → Option Inode) → ℕ × S → Run (Filled S)
  super_initialized made q inodes (code, s) =
      if code == 0
      then ops.get_root s >>= root_answered made q inodes
      else done (not_filled code inodes s)

  -- `q` is what `new_inode` returns, and `made` says that `d_make_root` makes a dentry.
  unfoldable pub vtfs_fill_super :
      (q : Ptr) → (made : Bool) → (token : Option (List ℕ)) → Vfs S → Run (Filled S)
  vtfs_fill_super q made token v = ops.init token v.storage >>= super_initialized made q v.inodes

  unfoldable pub vtfs_kill_sb : S → Run S
  vtfs_kill_sb s = ops.shutdown s

-- Which table `vtfs_init` selects, and what it returns for the answer of register_filesystem.
pub data Selected : Type 0 where
  net_storage_ops : Selected
  ram_storage_ops : Selected

unfoldable pub vtfs_init : (storage_type : List ℕ) → (registered : ℕ) → ℕ × Selected
vtfs_init storage_type registered =
    if str_eq storage_type (codes "net")
    then (registered, net_storage_ops)
    else (registered, ram_storage_ops)
