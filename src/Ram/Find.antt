-- ===== src/Ram/Find.antt =====
-- The searches through the list of nodes.
use os_course_lab.Base.{
  ℕ, Bool, false, ◌&&◌, Option, none, some, List, [], ◌∷◌, Run, done, ◌>>=◌, ◌==◌, if◌then◌else◌,
  str_eq,
}
use os_course_lab.Ram.State.{Ptr, null, Node, Heap, load}

-- `cur->payload && cur->payload->meta.ino == ino`
unfoldable pub has_ino : Heap → ℕ → Node → Run Bool
has_ino h ino cur =
    if cur.payload == null then done false else do p ← load h cur.payload; done (p.meta.ino == ino)

unfoldable pub find_node_by_ino : Heap → List Node → ℕ → Run (Option Node)
find_node_by_ino h [] ino = done none
find_node_by_ino h (cur ∷ rest) ino = do
  hit ← has_ino h ino cur
  if hit then done (some cur) else find_node_by_ino h rest ino

-- `node && node->payload`
abbrev pub payload_of : Option Node → Option Ptr
payload_of none = none
payload_of (some node) = if node.payload == null then none else some node.payload

unfoldable pub find_payload_by_ino : Heap → List Node → ℕ → Run (Option Ptr)
find_payload_by_ino h ns ino = do node ← find_node_by_ino h ns ino; done (payload_of node)

-- `cur->parent_ino == parent && !strcmp(cur->name, name)`
unfoldable pub is_child : ℕ → List ℕ → Node → Bool
is_child parent name cur = (cur.parent_ino == parent) && str_eq cur.name name

unfoldable pub find_child : List Node → ℕ → List ℕ → Option Node
find_child [] parent name = none
find_child (cur ∷ rest) parent name =
    if is_child parent name cur then some cur else find_child rest parent name

abbrev pub links_at : Heap → Option Ptr → Run ℕ
links_at h none = done 0
links_at h (some q) = do p ← load h q; done p.ref_count

unfoldable pub count_links_to_ino : Heap → List Node → ℕ → Run ℕ
count_links_to_ino h ns ino = do q ← find_payload_by_ino h ns ino; links_at h q
