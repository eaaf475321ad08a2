-- ===== src/Ram/WellFormed.antt =====
-- What holds of the storage between two operations: reference counts are the numbers of links,
-- nothing is leaked or dangling, inode numbers and names are unambiguous, buffers are as long as
-- their capacity says, and every entry stands in a directory that exists.
pub mod Lists
pub mod Search
pub mod Counts
pub mod Add
pub mod Remove
use os_course_lab.Base.{
  ℕ, zero, suc, ◌+◌, ◌^◌, ◌≤◌, ◌<◌, ◌≡◌, ◌⊎◌, Bool, true, false, Option, none, some, List, [], ◌∷◌,
  length,
}
use os_course_lab.Interface.{is_dir}
use os_course_lab.Ram.State.{Ptr, null, Payload, Node, Storage, Heap, Ram, Super}
use Lists.{All, refs, links, NodupAddrs, NoTwins}

pub record IsPayload (next_ino : ℕ) (p : Payload) : Type 0 where
  pub live : 0 < p.ref_count
  pub counts : p.ref_count < 2 ^ 32
  pub numbered : p.meta.ino < next_ino
  pub allocated : length p.bytes ≡ p.capacity
  pub within : p.meta.size ≤ p.capacity
  pub fits : p.capacity < 2 ^ 64
  pub signed : p.meta.size < 2 ^ 63

-- A node's parent is a directory that is there; the root alone has none.
abbrev pub HasParent : Heap → Node → Type 0
HasParent h n =
    (n.parent_ino ≡ 0)
    ⊎ ((q : Ptr) × (p : Payload) × (h q ≡ some p)
        × (is_dir p.meta.type ≡ true)
        × (p.meta.ino ≡ n.parent_ino))

pub record IsWellFormed (r : Ram) : Type 0 where
  pub no_null : r.heap null ≡ none
  pub counted : (q : Ptr) → refs (r.heap q) ≡ links q r.nodes_head
  pub payloads : (q : Ptr) (p : Payload) → r.heap q ≡ some p → IsPayload r.next_ino p
  pub distinct :
      (q q' : Ptr) (p p' : Payload)
      → r.heap q ≡ some p
      → r.heap q' ≡ some p'
      → p.meta.ino ≡ p'.meta.ino
      → q ≡ q'
  pub addrs : NodupAddrs r.nodes_head
  pub names : NoTwins r.nodes_head
  pub parents : All (HasParent r.heap) r.nodes_head

-- With nothing mounted no payload is left in memory.
abbrev pub IsSafeMount : Option Storage → Heap → Type 0
IsSafeMount none h = (q : Ptr) → h q ≡ none
IsSafeMount (some s) h = IsWellFormed (record { storage = s; heap = h })

abbrev pub IsSafe : Super → Type 0
IsSafe sb = IsSafeMount sb.s_fs_info sb.heap
