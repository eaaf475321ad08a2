-- ===== src/Ram/Links.antt =====
-- `vtfs_ram_storage_link` and `vtfs_ram_storage_count_links`.
use os_course_lab.Base.{
  ℕ, not, Option, none, some, List, ◌∷◌, Run, done, ◌>>=◌, ◌==◌, if◌then◌else◌,
}
use os_course_lab.Interface.{is_file, Result, ok, err, enomem, enoent, eexist, enotdir, eperm}
use os_course_lab.Ram.State.{
  Ptr, null, Node, Storage, Heap, Ram, Super, load, with_nodes, on_storage,
}
use os_course_lab.Ram.Find.{find_node_by_ino, find_child, count_links_to_ino}
use os_course_lab.Ram.Payload.{payload_get}
use os_course_lab.Ram.Entries.{is_directory, new_node}

-- vtfs_ram_storage_link, past the check of the target. `q` is the target's payload and `a` what
-- the allocation of the node returns.
unfoldable pub link_to : (a q : Ptr) → ℕ → List ℕ → Ram → Run (Result (Unit {0}) × Ram)
link_to a q parent name r = do
  above ← find_node_by_ino r.heap r.nodes_head parent
  good ← is_directory r.heap above
  if not good then done (err enotdir, r) else elim (find_child r.nodes_head parent name) [
    | some _ ↦ done (err eexist, r)
    | none ↦ if a == null then done (err enomem, r) else do
      h ← payload_get q r.heap
      done (ok tt, with_nodes r (new_node a q parent name ∷ r.nodes_head) h)
  ]

abbrev pub link_node : Ptr → Option Node → ℕ → List ℕ → Ram → Run (Result (Unit {0}) × Ram)
link_node a none parent name r = done (err enoent, r)
link_node a (some target) parent name r =
    if target.payload == null then done (err enoent, r) else do
      p ← load r.heap target.payload
      if is_file p.meta.type then link_to a target.payload parent name r else done (err eperm, r)

unfoldable pub link_body :
    Ptr → (target_ino parent : ℕ) → List ℕ → Ram → Run (Result (Unit {0}) × Ram)
link_body a target_ino parent name r = do
  target ← find_node_by_ino r.heap r.nodes_head target_ino
  link_node a target parent name r

unfoldable pub link :
    Ptr → (target_ino parent : ℕ) → List ℕ → Super → Run (Result (Unit {0}) × Super)
unfolding link_body
link a target_ino parent name = on_storage (link_body a target_ino parent name)

-- vtfs_ram_storage_count_links, which answers 0 where nothing is mounted.
abbrev pub count_mounted : ℕ → Option Storage → Heap → Run ℕ
count_mounted ino none h = done 0
count_mounted ino (some s) h = count_links_to_ino h s.nodes_head ino

unfoldable pub count_links : ℕ → Super → Run ℕ
count_links ino sb = count_mounted ino sb.s_fs_info sb.heap
