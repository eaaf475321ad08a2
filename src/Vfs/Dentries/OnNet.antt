-- ===== src/Vfs/Dentries/OnNet.antt =====
-- The table `net_storage_ops`, and mounting on it.
pub mod Memory
pub mod Refusals
use os_course_lab.Base.{
  IfDone, IfDone-bind, IfDone-any, IfDone-mono, ℕ, suc, ◌+◌, ◌-◌, ◌≡◌, ◌≢◌, refl, ◌∙◌, sym, ◌⊎◌,
  inl, inr, Bool, true, false, Bool-cases, Option, none, some, List, Run, done, fault, ◌>>=◌, ◌==◌,
  leb, if◌then◌else◌, length, take, arith,
}
use os_course_lab.Base.Text.{codes}
use os_course_lab.Interface.{NodeMeta, Dirent}
use os_course_lab.Net.Http.Response.{Response, as_int}
use os_course_lab.Net.Http.Sockets.{Kernel}
use os_course_lab.Net.Http.Call.Release.{one_if, Counts, vtfs_http_call-releases}
use os_course_lab.Net.Storage.{Host, Reply, failed_with, meta_reply, response_memory}
use os_course_lab.Net.Storage.Mount.{
  Mounted, max_token_len, init_answered, init_allocated, or_remount, init, shutdown, get_root,
}
use os_course_lab.Net.Storage.Entries.{
  lookup, iterate_dir, create_file, create_dir, unlink, rmdir, link, count_links,
}
use os_course_lab.Net.Storage.OnHttp.{UserMemory, over_http}
use os_course_lab.Vfs.Dentries.{Ptr, null, Inode, NameOps, Vfs, written, put_inode, dir_inode}
use os_course_lab.Vfs.Dentries.Mount.{
  Filled, iput, make_root, root_answered, super_initialized, vtfs_fill_super,
}

-- The superblock's `s_fs_info` and the machine.
abbrev pub OnHost : Type 0 → Type 0
OnHost W = Option (List ℕ) × W

module _ {W : Type 0} (host : Host W) where
  -- An operation that leaves `s_fs_info` alone.
  abbrev pub beside : {A : Type 0} → Option (List ℕ) → Run (A × W) → Run (A × OnHost W)
  beside sb m = do (a, w) ← m; done (a, (sb, w))

  abbrev pub init_on : (token : Option (List ℕ)) → OnHost W → Run (ℕ × OnHost W)
  init_on token (sb, w) = do (m, w') ← init host token sb w; done (m.code, (m.s_fs_info, w'))

  abbrev pub net_ops : NameOps (OnHost W)
  net_ops = record {
    init = init_on;
    shutdown = λ s. done (shutdown host s.0 s.1);
    get_root = λ s. beside s.0 (get_root host s.0 s.1);
    lookup = λ parent name s. beside s.0 (lookup host s.0 parent (some name) s.1);
    iterate_dir =
        λ dir_ino offset s. beside s.0 (iterate_dir host s.0 dir_ino (some offset) true s.1);
    create_file =
        λ parent name mode s. beside s.0 (create_file host s.0 parent (some name) mode s.1);
    unlink = λ parent name s. beside s.0 (unlink host s.0 parent (some name) s.1);
    mkdir = λ parent name mode s. beside s.0 (create_dir host s.0 parent (some name) mode s.1);
    rmdir = λ parent name s. beside s.0 (rmdir host s.0 parent (some name) s.1);
    link = λ target_ino parent name s. beside s.0 (link host s.0 target_ino parent (some name) s.1);
    count_links = λ ino s. beside s.0 (count_links host s.0 ino s.1);
  }
