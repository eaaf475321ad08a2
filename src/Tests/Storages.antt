-- ===== src/Tests/Storages.antt =====
-- A fresh storage, and one with a file that is named "a" in the root directory.
use os_course_lab.Base.{
  ◌++◌, replicate, ◌<◌, ◌^◌, ℕ, ◌+◌, str_eq, ◌≡◌, refl, none, some, List, [], ◌∷◌, arith, done,
}
use os_course_lab.Interface.{is_dir, is_file, dir, file, NodeMeta, ok, root_ino}
use os_course_lab.Ram.State.{Payload, Ram, update, load}
use os_course_lab.Ram.Find.{find_payload_by_ino, find_child, find_node_by_ino, is_child, has_ino}
use os_course_lab.Ram.Payload.{alloc_payload}
use os_course_lab.Ram.Entries.{is_directory, create_body, add_node, fresh_meta}
use os_course_lab.Ram.WellFormed.{IsWellFormed}
use os_course_lab.Ram.Content.{write_body, write_payload, grow, fill}
use os_course_lab.Base.Buffers.{store_bytes}
use os_course_lab.Base.Splice.{splice}
use os_course_lab.Interface.IoParams.{validate_io_params}
use os_course_lab.Ram.View.{inode}
use os_course_lab.Ram.Laws.Update.{write_body-WroteTo}
use os_course_lab.Tests.Kernels.{simple_kernel, simple_kernel-IsDocumented}
use os_course_lab.Ram.WellFormed.Lists.{has_addr}
use os_course_lab.Ram.Laws.Mount.{mounted_root, mounted_root-IsWellFormed}
use os_course_lab.Ram.Laws.Create.{create_body-Created}

abbrev pub root_only : Ram
root_only = mounted_root 11 1 (λ q. none)

pub root_only-IsWellFormed : IsWellFormed root_only
root_only-IsWellFormed = mounted_root-IsWellFormed 11 1 (λ q. none) (λ q. refl) (ground arith)

abbrev pub a_meta : NodeMeta
a_meta = fresh_meta file 0o100644 root_ino root_only

abbrev pub with_a : Ram
with_a = add_node 12 2 root_ino (97 ∷ []) a_meta root_only

pub a_created :
    create_body 2 12 file 0o100644 root_ino (97 ∷ []) root_only ≡ done (ok a_meta, with_a)
unfolding create_body find_child is_child find_node_by_ino has_ino is_directory is_dir update load
    alloc_payload
a_created = refl

pub with_a-IsWellFormed : IsWellFormed with_a
unfolding has_addr alloc_payload update
with_a-IsWellFormed =
    (rw a_created at (
      create_body-Created root_only root_only-IsWellFormed 2 12 root_ino (97 ∷ []) (omega arith)
        (omega arith) refl refl file 0o100644)).0

-- A directory "d" beside the file.
abbrev pub d_meta : NodeMeta
d_meta = fresh_meta dir 0o040755 root_ino with_a

abbrev pub with_d : Ram
with_d = add_node 13 3 root_ino (100 ∷ []) d_meta with_a

pub d_created : create_body 3 13 dir 0o040755 root_ino (100 ∷ []) with_a ≡ done (ok d_meta, with_d)
unfolding create_body find_child is_child str_eq find_node_by_ino has_ino is_directory is_dir update
    load alloc_payload
d_created = refl

pub with_d-IsWellFormed : IsWellFormed with_d
unfolding has_addr alloc_payload update
with_d-IsWellFormed =
    (rw d_created at (
      create_body-Created with_a with_a-IsWellFormed 3 13 root_ino (100 ∷ []) (omega arith)
        (omega arith) refl refl dir 0o040755)).0

-- The file after three bytes are written at its beginning.
abbrev pub three_bytes : List ℕ
three_bytes = 1 ∷ 2 ∷ 3 ∷ []

abbrev pub a_payload : Payload
a_payload = record {
  meta = record a_meta { size = 3 };
  bytes = three_bytes ++ replicate 1021 0;
  capacity = 1024;
  ref_count = 1;
}

abbrev pub with_bytes : Ram
with_bytes = record with_a { heap = update with_a.heap 2 (some a_payload) }

pub bytes_written : write_body simple_kernel 1001 three_bytes 3 0 with_a ≡ done (ok 3, with_bytes)
unfolding write_body write_payload grow fill store_bytes splice validate_io_params
    find_payload_by_ino find_node_by_ino has_ino is_file update load alloc_payload
bytes_written = refl

pub with_bytes-IsWellFormed : IsWellFormed with_bytes
with_bytes-IsWellFormed =
    (rw bytes_written at (
      write_body-WroteTo simple_kernel simple_kernel-IsDocumented with_a with_a-IsWellFormed 1001
        three_bytes 3 0 (omega arith) (omega arith))).2

-- The file "a" is inode 1001, with one link.
pub one_link : (p : Payload) → inode with_d 1001 ≡ some p → p.ref_count + 1 < 2 ^ 32
unfolding inode update alloc_payload
one_link p e = ground arith
