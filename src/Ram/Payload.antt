-- ===== src/Ram/Payload.antt =====
-- Allocation and reference counts of payloads. What an allocation returns is an argument; it is
-- NULL where memory is short.
use os_course_lab.Base.{
  ◌+◌, ◌-◌, ◌%◌, ◌^◌, none, some, List, [], ◌∷◌, Run, done, ◌>>=◌, ◌==◌, if◌then◌else◌,
}
use os_course_lab.Interface.{NodeMeta, dir}
use os_course_lab.Ram.State.{Ptr, null, Payload, Node, Heap, load, update}

-- What `kzalloc` leaves: every field 0, and 0 is VTFS_NODE_DIR.
abbrev pub zero_meta : NodeMeta
zero_meta = record { ino = 0; parent_ino = 0; type = dir; mode = 0; size = 0 }

abbrev pub new_payload : Payload
new_payload = record { meta = zero_meta; bytes = []; capacity = 0; ref_count = 1 }

-- The heap after `alloc_payload`, where the allocation returned `q`.
unfoldable pub alloc_payload : Ptr → Heap → Heap
alloc_payload q h = if q == null then h else update h q (some new_payload)

-- `payload->ref_count++`
unfoldable pub payload_get : Ptr → Heap → Run Heap
payload_get q h = if q == null then done h else do
  p ← load h q
  done (update h q (some (record p { ref_count = (p.ref_count + 1) % 2 ^ 32 })))

-- `--payload->ref_count`, and the payload is freed at 0.
unfoldable pub payload_put : Ptr → Heap → Run Heap
payload_put q h = if q == null then done h else do
  p ← load h q
  let count = (p.ref_count + 2 ^ 32 - 1) % 2 ^ 32
  done (update h q (if count == 0 then none else some (record p { ref_count = count })))

-- The loop of `free_all_nodes`: every node gives its payload back and is freed.
unfoldable pub free_all_nodes : List Node → Heap → Run Heap
free_all_nodes [] h = done h
free_all_nodes (cur ∷ rest) h = do h' ← payload_put cur.payload h; free_all_nodes rest h'
