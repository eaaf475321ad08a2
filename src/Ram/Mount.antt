-- ===== src/Ram/Mount.antt =====
-- `vtfs_ram_storage_init`, `vtfs_ram_storage_shutdown` and `vtfs_ram_storage_get_root`.
use os_course_lab.Base.{
  ℕ, ◌+◌, Option, none, some, [], ◌∷◌, Run, done, ◌>>=◌, ◌==◌, if◌then◌else◌, bit_or,
}
use os_course_lab.Interface.{NodeMeta, dir, Result, ok, err, enomem, enoent, root_ino}
use os_course_lab.Ram.State.{Ptr, null, Node, Storage, Heap, Ram, Super, load, update, on_storage}
use os_course_lab.Ram.Find.{find_node_by_ino}
use os_course_lab.Ram.Payload.{new_payload, alloc_payload, free_all_nodes}

-- S_IFDIR of linux/stat.h
abbrev pub s_ifdir : ℕ
s_ifdir = 0o040000

abbrev pub root_meta : NodeMeta
root_meta = record {
  ino = root_ino;
  parent_ino = 0;
  type = dir;
  mode = bit_or s_ifdir 0o777;
  size = 0;
}

abbrev pub root_node : Ptr → Ptr → Node
root_node a q = record { addr = a; name = []; parent_ino = 0; payload = q }

-- `s`, `a` and `q` are what the allocations of the storage, of the root's node and of its payload
-- return.
unfoldable pub storage_init : (s a q : Ptr) → Super → Run (Result (Unit {0}) × Super)
storage_init s a q sb =
    if s == null
    then done (err enomem, sb)
    else if a == null
    then done (err enomem, sb)
    else if q == null
    then done (err enomem, sb)
    else done (
      ok tt,
      record {
        s_fs_info = some (record { nodes_head = root_node a q ∷ []; next_ino = root_ino + 1 });
        heap = update (alloc_payload q sb.heap) q (some (record new_payload { meta = root_meta }));
      },
    )

abbrev pub shutdown_mounted : Option Storage → Heap → Run Super
shutdown_mounted none h = done (record { s_fs_info = none; heap = h })
shutdown_mounted (some s) h = do
  h' ← free_all_nodes s.nodes_head h
  done (record { s_fs_info = none; heap = h' })

unfoldable pub storage_shutdown : Super → Run Super
storage_shutdown sb = shutdown_mounted sb.s_fs_info sb.heap

-- `!node || !node->payload`, and what is answered then; else the payload's `meta`.
abbrev pub meta_of : Ram → Option Node → Run (Result NodeMeta × Ram)
meta_of r none = done (err enoent, r)
meta_of r (some node) =
    if node.payload == null
    then done (err enoent, r)
    else do p ← load r.heap node.payload; done (ok p.meta, r)

unfoldable pub get_root_body : Ram → Run (Result NodeMeta × Ram)
get_root_body r = do root ← find_node_by_ino r.heap r.nodes_head root_ino; meta_of r root

unfoldable pub get_root : Super → Run (Result NodeMeta × Super)
unfolding get_root_body
get_root = on_storage get_root_body
