-- ===== src/Tests/OnFiles.antt =====
-- The file operations on an open file "a".
use os_course_lab.Base.{◌-◌, ◌^◌, ◌≡◌, refl, some, [], ◌∷◌, arith, Ensures}
use os_course_lab.Ram.State.{update}
use os_course_lab.Ram.Payload.{alloc_payload}
use os_course_lab.Ram.WellFormed.Search.{node_with, holds}
use os_course_lab.Ram.View.{inode}
use os_course_lab.Vfs.Files.{File, vtfs_write, vtfs_llseek}
use os_course_lab.Vfs.Files.Seek.{sought, sum_from, base_of, vtfs_llseek-sought}
use os_course_lab.Vfs.Files.OnRam.{ram_ops, mounted, InSync, WroteFile, vtfs_write-WroteFile}
use os_course_lab.Vfs.Files.NoBytes.{WroteNothing, vtfs_write-WroteNothing}
use os_course_lab.Tests.Kernels.{simple_kernel, simple_kernel-IsDocumented}
use os_course_lab.Tests.Storages.{with_bytes, with_bytes-IsWellFormed, a_payload}

abbrev open_a : File
open_a = record { f_pos = 1; i_ino = 1001; i_size = 3 }

in_sync : InSync open_a with_bytes
unfolding inode node_with holds update alloc_payload
in_sync = (a_payload, refl, refl)

vtfs_write-WroteFile_example :
    Ensures
      (WroteFile open_a (some 2) 2)
      (vtfs_write (ram_ops simple_kernel) open_a (8 ∷ 9 ∷ []) 2 (some 2) (mounted with_bytes))
vtfs_write-WroteFile_example =
    vtfs_write-WroteFile simple_kernel simple_kernel-IsDocumented with_bytes with_bytes-IsWellFormed
      open_a in_sync (8 ∷ 9 ∷ []) 2 (some 2) (omega arith) (omega arith) (omega arith)

vtfs_write-WroteNothing_example :
    Ensures
      (WroteNothing open_a (some 7))
      (vtfs_write (ram_ops simple_kernel) open_a [] 0 (some 7) (mounted with_bytes))
vtfs_write-WroteNothing_example =
    vtfs_write-WroteNothing simple_kernel simple_kernel-IsDocumented with_bytes
      with_bytes-IsWellFormed open_a in_sync [] (some 7) (omega arith)

vtfs_llseek-sought_example :
    vtfs_llseek open_a (2 ^ 64 - 2) 2 ≡ sought open_a (sum_from (base_of open_a 2) (2 ^ 64 - 2))
vtfs_llseek-sought_example =
    vtfs_llseek-sought open_a (2 ^ 64 - 2) 2 (omega arith) (omega arith) (omega arith)
