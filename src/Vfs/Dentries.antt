-- ===== src/Vfs/Dentries.antt =====
-- The functions of vtfs.c on inodes, directory entries and the superblock, over the table of
-- storage operations. Numbers are 64-bit patterns; an `int` is sign-extended.
pub mod Names
pub mod Listing
pub mod Mount
pub mod Rootless
pub mod OnNet
pub mod OnRam
use os_course_lab.Base.{
  ℕ, ◌+◌, ◌-◌, ◌%◌, ◌^◌, Bool, Option, none, some, List, Run, done, fault, ◌>>=◌, ◌==◌, leb,
  if◌then◌else◌,
}
use os_course_lab.Interface.{NodeMeta, Dirent, is_dir}
use os_course_lab.Net.Http.Response.{neg, as_int}
use os_course_lab.Net.Storage.{Reply}

abbrev pub Ptr : Type 0
Ptr = ℕ

abbrev pub null : Ptr
null = 0

-- `inode->i_fop`
pub data FileOps : Type 0 where
  vtfs_dir_ops : FileOps
  vtfs_file_ops : FileOps

-- The fields of `struct inode` that the functions set; `i_op` is always `vtfs_inode_ops`.
pub record Inode : Type 0 where
  pub i_ino : ℕ
  pub i_mode : ℕ
  pub i_size : ℕ
  pub i_nlink : ℕ
  pub i_fop : FileOps

-- `struct vtfs_storage_ops` on a storage's state, without read and write. Both tables of the source
-- have all entries, so that the tests for NULL are left out.
pub record NameOps (S : Type 0) : Type 0 where
  pub init : (token : Option (List ℕ)) → S → Run (ℕ × S)
  pub shutdown : S → Run S
  pub get_root : S → Run (Reply NodeMeta × S)
  pub lookup : (parent : ℕ) → (name : List ℕ) → S → Run (Reply NodeMeta × S)
  pub iterate_dir : (dir_ino offset : ℕ) → S → Run (Reply (Dirent × ℕ) × S)
  pub create_file : (parent : ℕ) → (name : List ℕ) → (mode : ℕ) → S → Run (Reply NodeMeta × S)
  pub unlink : (parent : ℕ) → (name : List ℕ) → S → Run (ℕ × S)
  pub mkdir : (parent : ℕ) → (name : List ℕ) → (mode : ℕ) → S → Run (Reply NodeMeta × S)
  pub rmdir : (parent : ℕ) → (name : List ℕ) → S → Run (ℕ × S)
  pub link : (target_ino parent : ℕ) → (name : List ℕ) → S → Run (ℕ × S)
  pub count_links : (ino : ℕ) → S → Run (ℕ × S)

-- The inodes in memory, by address, and the storage.
pub record Vfs (S : Type 0) : Type 0 where
  pub inodes : Ptr → Option Inode
  pub storage : S

-- Reading a variable that a storage may have left unset is a fault.
abbrev pub written : {A : Type 0} → Option A → Run A
written none = fault
written (some a) = done a

unfoldable pub load_inode : (Ptr → Option Inode) → Ptr → Run Inode
load_inode inodes q = if q == null then fault else written (inodes q)

unfoldable pub put_inode : (Ptr → Option Inode) → Ptr → Option Inode → Ptr → Option Inode
put_inode inodes q i r = if r == q then i else inodes r

-- `vtfs_get_inode` where new_inode gave memory: its size is 0, and it has one link. The number
-- passes through an `int`.
unfoldable pub get_inode : (mode ino : ℕ) → Inode
get_inode mode ino = record {
  i_ino = as_int ino;
  i_mode = mode;
  i_size = 0;
  i_nlink = 1;
  i_fop = vtfs_file_ops;
}

-- The inode of a directory
abbrev pub dir_inode : NodeMeta → Inode
dir_inode meta = record (get_inode meta.mode meta.ino) {
  i_size = meta.size;
  i_nlink = 2;
  i_fop = vtfs_dir_ops;
}

-- The inode of a file, with the number of its links
abbrev pub file_inode : NodeMeta → (link_count : ℕ) → Inode
file_inode meta link_count = record (get_inode meta.mode meta.ino) {
  i_size = meta.size;
  i_nlink = link_count;
  i_fop = vtfs_file_ops;
}
