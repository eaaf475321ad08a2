-- ===== src/Vfs/Dentries/OnRam.antt =====
-- The table `ram_storage_ops`. What the allocations of an operation return is a function of the
-- state that it starts from.
pub mod Listed
pub mod Links
use os_course_lab.Base.{ℕ, Option, none, some, List, Run, done, fault, ◌>>=◌}
use os_course_lab.Interface.{
  NodeMeta, Dirent, Errno, enoent, enomem, efault, eexist, enotdir, eisdir, einval, efbig,
  enotempty, eperm, Result, ok, err,
}
use os_course_lab.Net.Http.Response.{neg}
use os_course_lab.Net.Storage.{Reply, failed_with, wrote}
use os_course_lab.Ram.State.{Ptr, Super}
use os_course_lab.Ram.Mount.{storage_init, storage_shutdown, get_root}
use os_course_lab.Ram.Entries.{lookup, iterate_dir, create_file, mkdir, unlink, rmdir}
use os_course_lab.Ram.Links.{link, count_links}
use os_course_lab.Vfs.Dentries.{NameOps}

-- The numbers of linux/errno.h, with a minus sign
abbrev pub errno_code : Errno → ℕ
errno_code eperm = neg 1
errno_code enoent = neg 2
errno_code enomem = neg 12
errno_code efault = neg 14
errno_code eexist = neg 17
errno_code enotdir = neg 20
errno_code eisdir = neg 21
errno_code einval = neg 22
errno_code efbig = neg 27
errno_code enotempty = neg 39

abbrev pub reply_of : {A : Type 0} → Result A → Reply A
reply_of (ok a) = wrote a
reply_of (err e) = failed_with (errno_code e)

abbrev pub code_of : Result (Unit {0}) → ℕ
code_of (ok u) = 0
code_of (err e) = errno_code e

abbrev pub replying : {A : Type 0} → Run (Result A × Super) → Run (Reply A × Super)
replying m = do (a, sb) ← m; done (reply_of a, sb)

abbrev pub returning : Run (Result (Unit {0}) × Super) → Run (ℕ × Super)
returning m = do (a, sb) ← m; done (code_of a, sb)

-- The allocations of a storage, of a node and of a payload.
pub record Allocations : Type 0 where
  pub storage : Super → Ptr
  pub node : Super → Ptr
  pub payload : Super → Ptr

abbrev pub ram_ops : Allocations → NameOps Super
ram_ops a = record {
  init = λ token sb. returning (storage_init (a.storage sb) (a.node sb) (a.payload sb) sb);
  shutdown = storage_shutdown;
  get_root = λ sb. replying (get_root sb);
  lookup = λ parent name sb. replying (lookup parent name sb);
  iterate_dir = λ dir_ino offset sb. replying (iterate_dir dir_ino offset sb);
  create_file =
      λ parent name mode sb. replying (create_file (a.payload sb) (a.node sb) parent name mode sb);
  unlink = λ parent name sb. returning (unlink parent name sb);
  mkdir = λ parent name mode sb. replying (mkdir (a.payload sb) (a.node sb) parent name mode sb);
  rmdir = λ parent name sb. returning (rmdir parent name sb);
  link = λ target_ino parent name sb. returning (link (a.node sb) target_ino parent name sb);
  count_links = λ ino sb. (do n ← count_links ino sb; done (n, sb));
}
