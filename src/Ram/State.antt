-- ===== src/Ram/State.antt =====
-- The structures of vtfs_ram_impl.c. Payloads are shared between hard links, so they live at
-- addresses of a heap; the singly linked list of nodes is the list of its nodes from the head on,
-- each with the address that it stands at.
use os_course_lab.Base.{ℕ, Option, none, some, List, Run, done, fault, ◌==◌, if◌then◌else◌}
use os_course_lab.Interface.{NodeMeta, Result, err, einval}

abbrev pub Ptr : Type 0
Ptr = ℕ

abbrev pub null : Ptr
null = 0

-- struct vtfs_ram_inode_payload. `data` is the buffer, empty while the pointer is NULL.
pub record Payload : Type 0 where
  pub meta : NodeMeta
  pub bytes : List ℕ
  pub capacity : ℕ
  pub ref_count : ℕ

-- struct vtfs_ram_node
pub record Node : Type 0 where
  pub addr : Ptr
  pub name : List ℕ
  pub parent_ino : ℕ
  pub payload : Ptr

-- struct vtfs_ram_storage
pub record Storage : Type 0 where
  pub nodes_head : List Node
  pub next_ino : ℕ

-- The payloads that are allocated, by address.
abbrev pub Heap : Type 0
Heap = Ptr → Option Payload

-- A mounted storage and the payloads in memory.
pub record Ram : Type 0 where
  pub storage : Storage
  pub open storage use *
  pub heap : Heap

-- The superblock's `s_fs_info`, NULL if nothing is mounted, and the payloads in memory.
pub record Super : Type 0 where
  pub s_fs_info : Option Storage
  pub heap : Heap

-- Reading through a pointer: a fault at NULL and at memory that is not allocated.
abbrev fetched : Option Payload → Run Payload
fetched none = fault
fetched (some p) = done p

unfoldable pub load : Heap → Ptr → Run Payload
load h q = if q == null then fault else fetched (h q)

unfoldable pub update : Heap → Ptr → Option Payload → Heap
update h q c r = if r == q then c else h r

abbrev pub with_nodes : Ram → List Node → Heap → Ram
with_nodes r ns h = record { storage = record { nodes_head = ns; next_ino = r.next_ino }; heap = h }

abbrev pub back {ℓ} : {A : Type ℓ} → Run (Result A × Ram) → Run (Result A × Super)
back (done (a, r)) = done (a, record { s_fs_info = some r.storage; heap = r.heap })
back fault = fault

abbrev pub on_mounted {ℓ} :
    {A : Type ℓ} → (Ram → Run (Result A × Ram)) → Option Storage → Heap → Run (Result A × Super)
on_mounted body none h = done (err einval, record { s_fs_info = none; heap = h })
on_mounted body (some s) h = back (body (record { storage = s; heap = h }))

-- `get_storage`, and the check that every operation begins with.
unfoldable pub on_storage {ℓ} :
    {A : Type ℓ} → (Ram → Run (Result A × Ram)) → Super → Run (Result A × Super)
on_storage body sb = on_mounted body sb.s_fs_info sb.heap
