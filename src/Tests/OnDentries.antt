-- ===== src/Tests/OnDentries.antt =====
-- The functions on dentries and superblocks at small storages.
use os_course_lab.Base.{
  IfDone, ℕ, ◌+◌, ◌≡◌, ◌≢◌, ◌⊎◌, refl, true, false, Option, none, some, List, [], ◌∷◌, ◌++◌, done,
  fault, Ensures, ◌==◌, if◌then◌else◌, length, arith,
}
use os_course_lab.Base.Text.{codes, decimal}
use os_course_lab.Interface.{NodeMeta, dir}
use os_course_lab.Net.Decode.Fields.{le_bytes}
use os_course_lab.Net.Decode.Laws.{node_meta_bytes}
use os_course_lab.Net.Http.Response.Parse.{response_text}
use os_course_lab.Net.Http.Response.{Response}
use os_course_lab.Net.Storage.{Host, wrote}
use os_course_lab.Net.Storage.OnHttp.{over_http}
use os_course_lab.Ram.WellFormed.Lists.{has_addr}
use os_course_lab.Ram.Laws.Iterate.{entries_of}
use os_course_lab.Vfs.Files.OnRam.{mounted}
use os_course_lab.Vfs.Dentries.{Inode, NameOps, vtfs_dir_ops, vtfs_file_ops}
use os_course_lab.Vfs.Dentries.Names.{nothing_placed, vtfs_mkdir, vtfs_create, vtfs_link}
use os_course_lab.Vfs.Dentries.Listing.{vtfs_iterate}
use os_course_lab.Vfs.Dentries.Mount.{vtfs_fill_super}
use os_course_lab.Vfs.Dentries.Rootless.{vtfs_fill_super-fault}
use os_course_lab.Vfs.Dentries.OnNet.{net_ops}
use os_course_lab.Vfs.Dentries.OnNet.Memory.{is_mounted, vtfs_fill_super-Balanced}
use os_course_lab.Vfs.Dentries.OnNet.Refusals.{code-positive}
use os_course_lab.Vfs.Dentries.OnRam.{Allocations, ram_ops}
use os_course_lab.Vfs.Dentries.OnRam.Listed.{read_all, all_entries, at_pos, read_all-all_entries}
use os_course_lab.Vfs.Dentries.OnRam.Links.{IsCounted, vtfs_link-IsCounted}
use os_course_lab.Tests.Machines.{
  Machine, idle, machine_kernel, user_memory, machine_kernel-Counts, file_host,
}
use os_course_lab.Tests.Storages.{with_d, with_d-IsWellFormed, one_link}

abbrev allocations : Allocations
allocations = record { storage = λ sb. 11; node = λ sb. 14; payload = λ sb. 4 }

-- The root directory with "d" and "a"
read_all-all_entries_example :
    (read_all
        (ram_ops allocations)
        (length (entries_of with_d.heap 1000 with_d.nodes_head) + 2)
        (at_pos 0 1000 1000)
        (mounted with_d)
      ≡ done (
        all_entries 1000 1000 (entries_of with_d.heap 1000 with_d.nodes_head),
        at_pos (length (entries_of with_d.heap 1000 with_d.nodes_head) + 2) 1000 1000,
        mounted with_d,
      ))
    × (vtfs_iterate
          (ram_ops allocations)
          true
          (at_pos (length (entries_of with_d.heap 1000 with_d.nodes_head) + 2) 1000 1000)
          (mounted with_d)
        ≡ done (
          none,
          at_pos (length (entries_of with_d.heap 1000 with_d.nodes_head) + 2) 1000 1000,
          mounted with_d,
        ))
read_all-all_entries_example =
    read_all-all_entries allocations with_d.storage with_d.heap 1000 1000 with_d-IsWellFormed
      (omega arith)

abbrev file_a : Inode
file_a = record { i_ino = 1001; i_mode = 0o100644; i_size = 0; i_nlink = 1; i_fop = vtfs_file_ops }

abbrev root_dir : Inode
root_dir = record { i_ino = 1000; i_mode = 0o040777; i_size = 0; i_nlink = 2; i_fop = vtfs_dir_ops }

abbrev two_inodes : ℕ → Option Inode
two_inodes q = if q == 5 then some file_a else if q == 6 then some root_dir else none

fresh_node : has_addr 14 with_d.nodes_head ≡ false
unfolding has_addr
fresh_node = refl

-- "b" as a second name of "a"
vtfs_link-IsCounted_example :
    Ensures
      (λ placed. placed.code ≡ 0 → IsCounted 5 1001 with_d placed)
      (vtfs_link
        (ram_ops allocations)
        (some 5)
        6
        (codes "b")
        (record { inodes = two_inodes; storage = mounted with_d }))
vtfs_link-IsCounted_example =
    vtfs_link-IsCounted allocations with_d with_d-IsWellFormed 5 6 file_a root_dir two_inodes
      (codes "b") (omega arith) refl (omega arith) refl (omega arith) one_link fresh_node

-- The server's answers to init and get_root
abbrev root_meta : NodeMeta
root_meta = record { ino = 1000; parent_ino = 0; type = dir; mode = 0o040777; size = 0 }

abbrev answering : Machine
answering = record idle {
  arriving =
      response_text (codes "HTTP/1.1 200 OK") [] [] (decimal 8) (le_bytes 8 0)
      ∷ []
      ∷ response_text (codes "HTTP/1.1 200 OK") [] [] (decimal 38)
          (le_bytes 8 0 ++ node_meta_bytes root_meta)
      ∷ [];
}

vtfs_fill_super-Balanced_example :
    IfDone
      (λ f.
        (f.vfs.storage.1.blocks ≡ 0 + is_mounted f.vfs.storage.0)
        × (((f.code ≡ 0) × (f.s_root ≢ none)) ⊎ ((f.s_root ≡ none) × (f.vfs.storage.0 ≡ none))))
      (vtfs_fill_super
        (net_ops (over_http machine_kernel user_memory))
        3
        true
        (some (codes "t"))
        (record { inodes = λ q. none; storage = (none, answering) }))
vtfs_fill_super-Balanced_example =
    vtfs_fill_super-Balanced machine_kernel user_memory (λ m. m.sockets) (λ m. m.blocks)
      machine_kernel-Counts 3 true (some (codes "t")) (λ q. none) answering

-- A server that answers EEXIST to everything
abbrev eexist : Response
eexist = record { return_value = 17; bytes = []; data_len = 0 }

abbrev full_host : Host (List ℕ)
full_host = record file_host { call = λ token method size args content. done (eexist, content) }

code-positive_example :
    (vtfs_mkdir
        (net_ops full_host)
        9
        6
        (codes "d")
        0o755
        (record { inodes = two_inodes; storage = (some [], []) })
      ≡ done (nothing_placed 17 two_inodes (some [], [])))
    × (vtfs_create
          (net_ops full_host)
          9
          6
          (codes "d")
          0o755
          (record { inodes = two_inodes; storage = (some [], []) })
        ≡ done (nothing_placed 17 two_inodes (some [], [])))
code-positive_example =
    code-positive full_host [] 9 6 root_dir two_inodes (codes "d") 0o755 eexist eexist 17 [] [] []
      (omega arith) refl (omega arith) (omega arith) (omega arith) (omega arith) refl refl refl refl

-- A storage whose root is there
abbrev root_ops : NameOps ℕ
root_ops = record {
  init = λ token s. done (0, 1);
  shutdown = λ s. done 0;
  get_root = λ s. done (wrote root_meta, s);
  lookup = λ parent name s. fault;
  iterate_dir = λ dir_ino offset s. fault;
  create_file = λ parent name mode s. fault;
  unlink = λ parent name s. fault;
  mkdir = λ parent name mode s. fault;
  rmdir = λ parent name s. fault;
  link = λ target_ino parent name s. fault;
  count_links = λ ino s. fault;
}

vtfs_fill_super-fault_example :
    vtfs_fill_super root_ops 3 false none (record { inodes = λ q. none; storage = 0 }) ≡ fault
vtfs_fill_super-fault_example =
    vtfs_fill_super-fault root_ops 3 none (λ q. none) 0 1 1 root_meta (omega arith) refl refl
