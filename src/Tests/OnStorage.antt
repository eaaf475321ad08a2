-- ===== src/Tests/OnStorage.antt =====
-- The laws of the storage in memory at small storages.
use os_course_lab.Base.{str_eq, get_elem?, ◌≡◌, refl, none, [], ◌∷◌, arith, done, Ensures}
use os_course_lab.Interface.{dir, root_ino}
use os_course_lab.Ram.State.{Ptr, Super, update}
use os_course_lab.Ram.Find.{find_child, is_child}
use os_course_lab.Ram.Payload.{alloc_payload}
use os_course_lab.Ram.Mount.{storage_init, storage_shutdown}
use os_course_lab.Ram.Entries.{create_body, lookup_body, iterate_dir_body, unlink_body, rmdir_body}
use os_course_lab.Ram.Links.{link_body}
use os_course_lab.Ram.Content.{read_body, write_body}
use os_course_lab.Ram.WellFormed.Lists.{has_addr}
use os_course_lab.Ram.View.{entry}
use os_course_lab.Ram.Laws.Named.{LookedUp, lookup_body-LookedUp}
use os_course_lab.Ram.Laws.Create.{Created, create_body-Created}
use os_course_lab.Ram.Laws.Unlink.{Unlinked, unlink_body-Unlinked}
use os_course_lab.Ram.Laws.Rmdir.{Rmdired, rmdir_body-Rmdired}
use os_course_lab.Ram.Laws.Link.{Linked, link_body-Linked}
use os_course_lab.Ram.Laws.Read.{ReadFrom, read_body-ReadFrom}
use os_course_lab.Ram.Laws.Update.{WroteTo, write_body-WroteTo}
use os_course_lab.Ram.Laws.Iterate.{
  entries_of, listing_answer, Lists, iterate_dir_body-entries_of, entry-Lists,
}
use os_course_lab.Ram.Laws.Mount.{Initialised, storage_init-Initialised, storage_shutdown_frees}
use os_course_lab.Vfs.Files.OnRam.{mounted}
use os_course_lab.Tests.Kernels.{simple_kernel, simple_kernel-IsDocumented}
use os_course_lab.Tests.Storages.{
  with_a, with_a-IsWellFormed, with_d, with_d-IsWellFormed, with_bytes, with_bytes-IsWellFormed,
  one_link,
}

create_body-Created_example :
    Ensures
      (Created 3 13 dir 0o040755 root_ino (100 ∷ []) with_a)
      (create_body 3 13 dir 0o040755 root_ino (100 ∷ []) with_a)
unfolding has_addr alloc_payload update
create_body-Created_example =
    create_body-Created with_a with_a-IsWellFormed 3 13 root_ino (100 ∷ []) (omega arith)
      (omega arith) refl refl dir 0o040755

unlink_body-Unlinked_example :
    Ensures (Unlinked root_ino (97 ∷ []) with_d) (unlink_body root_ino (97 ∷ []) with_d)
unlink_body-Unlinked_example = unlink_body-Unlinked with_d root_ino (97 ∷ []) with_d-IsWellFormed

rmdir_body-Rmdired_example :
    Ensures (Rmdired root_ino (100 ∷ []) with_d) (rmdir_body root_ino (100 ∷ []) with_d)
rmdir_body-Rmdired_example = rmdir_body-Rmdired with_d root_ino (100 ∷ []) with_d-IsWellFormed

link_body-Linked_example :
    Ensures (Linked 14 1001 1002 (98 ∷ []) with_d) (link_body 14 1001 1002 (98 ∷ []) with_d)
unfolding has_addr
link_body-Linked_example =
    link_body-Linked with_d with_d-IsWellFormed 14 1001 1002 (98 ∷ []) (omega arith) one_link refl

write_body-WroteTo_example :
    Ensures
      (WroteTo simple_kernel 1001 (7 ∷ []) 1 5 with_bytes)
      (write_body simple_kernel 1001 (7 ∷ []) 1 5 with_bytes)
write_body-WroteTo_example =
    write_body-WroteTo simple_kernel simple_kernel-IsDocumented with_bytes with_bytes-IsWellFormed
      1001 (7 ∷ []) 1 5 (omega arith) (omega arith)

read_body-ReadFrom_example :
    Ensures
      (ReadFrom simple_kernel 1001 10 1 with_bytes)
      (read_body simple_kernel 1001 10 1 with_bytes)
read_body-ReadFrom_example =
    read_body-ReadFrom simple_kernel with_bytes with_bytes-IsWellFormed 1001 10 1 (omega arith)
      (omega arith)

lookup_body-LookedUp_example :
    Ensures (LookedUp root_ino (97 ∷ []) with_d) (lookup_body root_ino (97 ∷ []) with_d)
lookup_body-LookedUp_example = lookup_body-LookedUp with_d root_ino (97 ∷ []) with_d-IsWellFormed

iterate_dir_body-entries_of_example :
    iterate_dir_body root_ino 1 with_d
    ≡ done
        (listing_answer (get_elem? (entries_of with_d.heap root_ino with_d.nodes_head) 1) 1, with_d)
iterate_dir_body-entries_of_example =
    iterate_dir_body-entries_of with_d root_ino 1 with_d-IsWellFormed (omega arith)

entry-Lists_example : Lists (entries_of with_d.heap root_ino with_d.nodes_head) (97 ∷ []) 1001
unfolding entry find_child is_child str_eq update alloc_payload
entry-Lists_example =
    entry-Lists with_d root_ino (97 ∷ []) 1001 with_d-IsWellFormed (omega arith) refl

abbrev unmounted : Super
unmounted = record { s_fs_info = none; heap = λ q. none }

storage_init-Initialised_example :
    Ensures (Initialised 10 11 1 unmounted) (storage_init 10 11 1 unmounted)
storage_init-Initialised_example = storage_init-Initialised 10 11 1 unmounted (λ q. refl)

storage_shutdown_frees_example :
    Ensures
      (λ sb'. (sb'.s_fs_info ≡ none) × ((q : Ptr) → sb'.heap q ≡ none))
      (storage_shutdown (mounted with_d))
storage_shutdown_frees_example = storage_shutdown_frees (mounted with_d) with_d-IsWellFormed
