-- ===== src/Tests/OnSessions.antt =====
-- Several calls after one another.
use os_course_lab.Base.{str_eq, ℕ, ◌≡◌, ◌≢◌, refl, ◌⊎◌, none, some, [], ◌∷◌, arith, done, Ensures}
use os_course_lab.Interface.{is_dir, is_file, dir, ok, err, efault, root_ino}
use os_course_lab.Ram.State.{Payload, with_nodes, Ptr, Ram, update, load}
use os_course_lab.Ram.Payload.{new_payload, payload_get, payload_put, alloc_payload}
use os_course_lab.Ram.Find.{find_node_by_ino, has_ino, find_child, is_child}
use os_course_lab.Ram.Mount.{storage_init, storage_shutdown}
use os_course_lab.Ram.Entries.{is_directory, take_out, new_node, lookup_body, unlink_body}
use os_course_lab.Ram.Links.{link_to, link_body}
use os_course_lab.Ram.Content.{read_body}
use os_course_lab.Ram.WellFormed.{IsSafe}
use os_course_lab.Ram.WellFormed.Lists.{has_addr}
use os_course_lab.Ram.View.{inode, entry}
use os_course_lab.Ram.Laws.RoundTrip.{
  read_body-write_body, lookup_body-create_body, inode-unlink_body-link_body,
}
use os_course_lab.Ram.Safety.Requests.{init, create_file, write, perform, Allocates}
use os_course_lab.Ram.Safety.Calls.{perform-IsSafe}
use os_course_lab.Ram.Safety.Sessions.{Reach, fresh, call, Reach-ends}
use os_course_lab.Vfs.Files.OnRam.{mounted}
use os_course_lab.Tests.Kernels.{simple_kernel, simple_kernel-IsDocumented}
use os_course_lab.Tests.Storages.{
  root_only, a_meta, with_a, with_a-IsWellFormed, with_d, with_d-IsWellFormed, d_meta, d_created,
  with_bytes, three_bytes, bytes_written, one_link,
}

perform-IsSafe_example :
    Ensures IsSafe (perform simple_kernel (write 1001 three_bytes 3 5) (mounted with_a))
perform-IsSafe_example =
    perform-IsSafe simple_kernel simple_kernel-IsDocumented (mounted with_a) with_a-IsWellFormed
      (write 1001 three_bytes 3 5) (omega arith, omega arith)

root_reached : Reach simple_kernel (mounted root_only)
unfolding perform storage_init
root_reached = call fresh (init 10 11 1) refl refl

a_allocated : Allocates 2 12 (97 ∷ []) root_only
unfolding has_addr alloc_payload update
a_allocated = record { unused = refl; new_addr = refl; short = omega arith; room = omega arith }

Reach-ends_example :
    Ensures
      (λ sb'.
        Reach simple_kernel sb'
        × Ensures
            (λ sb″. (sb″.s_fs_info ≡ none) × ((q : Ptr) → sb″.heap q ≡ none))
            (storage_shutdown sb'))
      (perform simple_kernel (create_file 2 12 root_ino (97 ∷ []) 0o644) (mounted root_only))
Reach-ends_example =
    Reach-ends simple_kernel simple_kernel-IsDocumented (mounted root_only) root_reached
      (create_file 2 12 root_ino (97 ∷ []) 0o644) a_allocated

read_body-write_body_example :
    Ensures
      (λ (answer, r″).
        (r″ ≡ with_bytes)
        × (((answer ≡ err efault) × (simple_kernel.copy_to_user three_bytes ≢ 0))
            ⊎ (answer ≡ ok (record { moved = three_bytes; offset = 3 }))))
      (read_body simple_kernel 1001 3 0 with_bytes)
read_body-write_body_example =
    read_body-write_body simple_kernel with_a with_bytes 1001 three_bytes 0 3
      simple_kernel-IsDocumented with_a-IsWellFormed (omega arith) (omega arith) bytes_written

lookup_body-create_body_example : lookup_body root_ino (100 ∷ []) with_d ≡ done (ok d_meta, with_d)
unfolding has_addr alloc_payload update
lookup_body-create_body_example =
    lookup_body-create_body with_a with_d 3 13 dir 0o040755 root_ino (100 ∷ []) d_meta
      with_a-IsWellFormed (omega arith) (omega arith) refl refl d_created

-- The file "a" gets the name "b" in the directory "d", and the name "a" goes.
abbrev file_links : ℕ → Payload
file_links n = record new_payload { meta = a_meta; ref_count = n }

abbrev with_b : Ram
with_b =
    with_nodes with_d (new_node 14 2 1002 (98 ∷ []) ∷ with_d.nodes_head)
      (update with_d.heap 2 (some (file_links 2)))

abbrev without_a : Ram
without_a =
    with_nodes with_b
      (new_node 14 2 1002 (98 ∷ []) ∷ new_node 13 3 root_ino (100 ∷ []) ∷ root_only.nodes_head)
      (update with_b.heap 2 (some (file_links 1)))

b_linked : link_body 14 1001 1002 (98 ∷ []) with_d ≡ done (ok tt, with_b)
unfolding link_body link_to find_node_by_ino has_ino is_directory is_dir is_file find_child is_child
    str_eq payload_get update load alloc_payload
b_linked = refl

a_unlinked : unlink_body root_ino (97 ∷ []) with_b ≡ done (ok tt, without_a)
unfolding unlink_body take_out is_child str_eq is_file payload_put update load alloc_payload
a_unlinked = refl

inode-unlink_body-link_body_example :
    (inode without_a 1001 ≡ inode with_d 1001)
    × (entry without_a 1002 (98 ∷ []) ≡ some 1001)
    × (entry without_a root_ino (97 ∷ []) ≡ none)
unfolding has_addr entry find_child is_child str_eq update alloc_payload
inode-unlink_body-link_body_example =
    inode-unlink_body-link_body with_d with_b without_a 14 1001 root_ino 1002 (97 ∷ []) (98 ∷ [])
      with_d-IsWellFormed (omega arith) one_link refl refl b_linked a_unlinked
