-- ===== src/Ram/Entries.antt =====
-- The operations on directory entries. A body works on a mounted storage; the operation itself
-- first checks that there is one.
use os_course_lab.Base.{
  ℕ, ◌+◌, ◌%◌, ◌^◌, Bool, true, false, not, ◌&&◌, Option, none, some, List, [], ◌∷◌, Run, done,
  ◌>>=◌, ◌==◌, if◌then◌else◌, take, bit_and, bit_or,
}
use os_course_lab.Interface.{
  NodeType, NodeMeta, Dirent, dir, file, is_dir, is_file, Result, ok, err, enomem, enoent, eexist,
  enotdir, enotempty, eperm, name_max,
}
use os_course_lab.Ram.State.{
  Ptr, null, Payload, Node, Heap, Ram, Super, load, update, with_nodes, on_storage,
}
use os_course_lab.Ram.Find.{find_node_by_ino, is_child, find_child}
use os_course_lab.Ram.Payload.{new_payload, alloc_payload, payload_put}
use os_course_lab.Ram.Mount.{s_ifdir, meta_of}

-- S_IFREG of linux/stat.h
abbrev pub s_ifreg : ℕ
s_ifreg = 0o100000

-- vtfs_ram_storage_lookup
unfoldable pub lookup_body : ℕ → List ℕ → Ram → Run (Result NodeMeta × Ram)
lookup_body parent name r = meta_of r (find_child r.nodes_head parent name)

unfoldable pub lookup : ℕ → List ℕ → Super → Run (Result NodeMeta × Super)
unfolding lookup_body
lookup parent name = on_storage (lookup_body parent name)

-- The loop of vtfs_ram_storage_iterate_dir, with the `count` that it has reached.
abbrev pub in_dir : ℕ → Node → Bool
in_dir dir_ino cur = (cur.parent_ino == dir_ino) && not (cur.payload == null)

abbrev pub dirent_of : Heap → Node → Run Dirent
dirent_of h cur = do
  p ← load h cur.payload
  done (record { name = take name_max cur.name; ino = p.meta.ino; type = p.meta.type })

unfoldable pub nth_entry : Heap → List Node → (dir_ino offset count : ℕ) → Run (Result Dirent)
nth_entry h [] dir_ino offset count = done (err enoent)
nth_entry h (cur ∷ rest) dir_ino offset count =
    let next = nth_entry h rest dir_ino offset ((count + 1) % 2 ^ 64) in
    let same = nth_entry h rest dir_ino offset count in
    if in_dir dir_ino cur
    then if count == offset then (do e ← dirent_of h cur; done (ok e)) else next
    else same

abbrev pub step_offset : ℕ → Result Dirent → Result (Dirent × ℕ)
step_offset offset (ok e) = ok (e, (offset + 1) % 2 ^ 64)
step_offset offset (err e) = err e

-- The answer is the entry and the new `*offset`; on an error the offset is left alone.
unfoldable pub iterate_dir_body : (dir_ino offset : ℕ) → Ram → Run (Result (Dirent × ℕ) × Ram)
iterate_dir_body dir_ino offset r = do
  e ← nth_entry r.heap r.nodes_head dir_ino offset 0
  done (step_offset offset e, r)

unfoldable pub iterate_dir : (dir_ino offset : ℕ) → Super → Run (Result (Dirent × ℕ) × Super)
unfolding iterate_dir_body
iterate_dir dir_ino offset = on_storage (iterate_dir_body dir_ino offset)

-- `!node || !node->payload || node->payload->meta.type != VTFS_NODE_DIR`, negated
unfoldable pub is_directory : Heap → Option Node → Run Bool
is_directory h none = done false
is_directory h (some node) =
    if node.payload == null
    then done false
    else do p ← load h node.payload; done (is_dir p.meta.type)

-- `storage->next_ino++` and the fields that the two callers set in the same way.
abbrev pub fresh_meta : NodeType → ℕ → ℕ → Ram → NodeMeta
fresh_meta t mode parent r = record {
  ino = r.next_ino;
  parent_ino = parent;
  type = t;
  mode = mode;
  size = 0;
}

-- The node, its `name` by `strncpy(…, NAME_MAX)` and a terminator.
abbrev pub new_node : (a q : Ptr) → ℕ → List ℕ → Node
new_node a q parent name = record {
  addr = a;
  name = take name_max name;
  parent_ino = parent;
  payload = q;
}

-- The state after a creation.
abbrev pub add_node : (a q : Ptr) → ℕ → List ℕ → NodeMeta → Ram → Ram
add_node a q parent name meta r = record {
  storage = record {
    nodes_head = new_node a q parent name ∷ r.nodes_head;
    next_ino = (r.next_ino + 1) % 2 ^ 64;
  };
  heap = update (alloc_payload q r.heap) q (some (record new_payload { meta = meta }));
}

-- The common text of vtfs_ram_storage_create_file and vtfs_ram_storage_mkdir. `q` and `a` are what
-- the allocations of the payload and of the node return.
unfoldable pub create_body :
    (q a : Ptr) → NodeType → (mode : ℕ) → ℕ → List ℕ → Ram → Run (Result NodeMeta × Ram)
create_body q a t mode parent name r = elim (find_child r.nodes_head parent name) [
  | some _ ↦ done (err eexist, r)
  | none ↦ do
    above ← find_node_by_ino r.heap r.nodes_head parent
    good ← is_directory r.heap above
    (if not good
        then done (err enotdir, r)
        else if q == null
        then done (err enomem, r)
        else if a == null
        then (do
          h ← payload_put q (alloc_payload q r.heap)
          done (err enomem, record r { heap = h }))
        else (let meta = fresh_meta t mode parent r in
            done (ok meta, add_node a q parent name meta r)))
]

unfoldable pub create_file :
    (q a : Ptr) → ℕ → List ℕ → (mode : ℕ) → Super → Run (Result NodeMeta × Super)
unfolding create_body
create_file q a parent name mode =
    on_storage (create_body q a file (bit_or s_ifreg (bit_and mode 0o777)) parent name)

unfoldable pub mkdir : (q a : Ptr) → ℕ → List ℕ → (mode : ℕ) → Super → Run (Result NodeMeta × Super)
unfolding create_body
mkdir q a parent name mode =
    on_storage (create_body q a dir (bit_or s_ifdir (bit_and mode 0o777)) parent name)

-- The first node that passes the test, and the list with that node unlinked.
abbrev pub found_after : Node → Option (Node × List Node) → Option (Node × List Node)
found_after cur none = none
found_after cur (some (n, rest)) = some (n, cur ∷ rest)

unfoldable pub take_out : (Node → Bool) → List Node → Option (Node × List Node)
take_out test [] = none
take_out test (cur ∷ rest) =
    if test cur then some (cur, rest) else found_after cur (take_out test rest)

-- Unlink the node and drop its reference.
abbrev pub remove_node : Ram → Node → List Node → Run (Result (Unit {0}) × Ram)
remove_node r cur rest = do h ← payload_put cur.payload r.heap; done (ok tt, with_nodes r rest h)

-- vtfs_ram_storage_unlink, from the node that has the name on.
abbrev pub unlink_node : Ram → Node → List Node → Run (Result (Unit {0}) × Ram)
unlink_node r cur rest = if cur.payload == null then done (err eperm, r) else do
  p ← load r.heap cur.payload
  if is_file p.meta.type then remove_node r cur rest else done (err eperm, r)

abbrev pub unlink_found : Ram → Option (Node × List Node) → Run (Result (Unit {0}) × Ram)
unlink_found r none = done (err enoent, r)
unlink_found r (some (cur, rest)) = unlink_node r cur rest

unfoldable pub unlink_body : ℕ → List ℕ → Ram → Run (Result (Unit {0}) × Ram)
unlink_body parent name r = unlink_found r (take_out (is_child parent name) r.nodes_head)

unfoldable pub unlink : ℕ → List ℕ → Super → Run (Result (Unit {0}) × Super)
unfolding unlink_body
unlink parent name = on_storage (unlink_body parent name)

-- The loop that looks for a node inside the directory.
unfoldable pub has_entries : List Node → ℕ → Bool
has_entries [] ino = false
has_entries (cur ∷ rest) ino = if cur.parent_ino == ino then true else has_entries rest ino

-- The second loop of vtfs_ram_storage_rmdir, which looks for the node by its address.
abbrev pub rmdir_found : Ram → Option (Node × List Node) → Run (Result (Unit {0}) × Ram)
rmdir_found r none = done (err enoent, r)
rmdir_found r (some (cur, rest)) = remove_node r cur rest

-- vtfs_ram_storage_rmdir, from the payload of the name's node on.
abbrev pub rmdir_payload : Ram → Node → Payload → Run (Result (Unit {0}) × Ram)
rmdir_payload r dir_node p =
    if not (is_dir p.meta.type)
    then done (err enotdir, r)
    else if has_entries r.nodes_head p.meta.ino
    then done (err enotempty, r)
    else rmdir_found r (take_out (λ cur. cur.addr == dir_node.addr) r.nodes_head)

abbrev pub rmdir_node : Ram → Option Node → Run (Result (Unit {0}) × Ram)
rmdir_node r none = done (err enoent, r)
rmdir_node r (some dir_node) =
    if dir_node.payload == null
    then done (err enoent, r)
    else do p ← load r.heap dir_node.payload; rmdir_payload r dir_node p

unfoldable pub rmdir_body : ℕ → List ℕ → Ram → Run (Result (Unit {0}) × Ram)
rmdir_body parent name r = rmdir_node r (find_child r.nodes_head parent name)

unfoldable pub rmdir : ℕ → List ℕ → Super → Run (Result (Unit {0}) × Super)
unfolding rmdir_body
rmdir parent name = on_storage (rmdir_body parent name)
