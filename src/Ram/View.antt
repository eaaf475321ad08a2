-- ===== src/Ram/View.antt =====
-- What a client of the storage can tell: which inode number a name in a directory has, and which
-- payload an inode number has. The addresses, the order of the nodes and the sharing are hidden.
use os_course_lab.Base.{
  ℕ, ◌<◌, ◌≡◌, refl, ◌≢◌, inl, inr, Bool, true, false, Option, none, some, List, [], ◌∷◌, arith,
  ◌==◌, done, Option-cases, ◌&&◌, str_eq,
}
use os_course_lab.Interface.{is_dir}
use os_course_lab.Ram.State.{Ptr, null, Payload, Node, Heap, Ram, load}
use os_course_lab.Ram.Find.{is_child, find_child, find_node_by_ino}
use os_course_lab.Ram.Entries.{is_directory}
use os_course_lab.Ram.WellFormed.{IsWellFormed, HasParent}
use os_course_lab.Ram.WellFormed.Lists.{links}
use os_course_lab.Ram.WellFormed.Remove.{IsWellFormed-Covers}
use os_course_lab.Ram.WellFormed.Search.{
  Covers, load-linked, node_with, find_node_by_ino-node_with, node_with-found, node_with_complete,
}

-- `n'` in `p'` is the name `n` in `p`.
abbrev pub same_name : ℕ → List ℕ → ℕ → List ℕ → Bool
same_name p n p' n' = (p == p') && str_eq n n'

abbrev pub behind : Heap → Option Node → Option Payload
behind h none = none
behind h (some n) = h n.payload

abbrev pub number : Option Payload → Option ℕ
number none = none
number (some p) = some p.meta.ino

abbrev pub is_dir_payload : Option Payload → Bool
is_dir_payload none = false
is_dir_payload (some p) = is_dir p.meta.type

-- The payload that has an inode number.
unfoldable pub inode : Ram → ℕ → Option Payload
inode r ino = behind r.heap (node_with r.heap r.nodes_head ino)

-- The test of the parent directory in creations and links.
abbrev pub dir_at : Ram → ℕ → Bool
dir_at r ino = is_dir_payload (inode r ino)

-- The inode number that a name in a directory has.
unfoldable pub entry : Ram → ℕ → List ℕ → Option ℕ
entry r parent name = number (behind r.heap (find_child r.nodes_head parent name))

pub find_child-some :
    (ns : List Node) (parent : ℕ) (name : List ℕ) (n : Node)
    → find_child ns parent name ≡ some n
    → (is_child parent name n ≡ true) × (0 < links n.payload ns)
unfolding find_child links
find_child-some [] parent name n e = ground arith
find_child-some (m ∷ ns) parent name n e = ground (arith, find_child-some ns parent name n)

module _ (r : Ram) (w : IsWellFormed r) where
  covers : Covers r.heap r.nodes_head
  covers = IsWellFormed-Covers w

  -- A payload is found by its own number.
  pub inode-some : (q : Ptr) (p : Payload) → r.heap q ≡ some p → inode r p.meta.ino ≡ some p
  unfolding inode
  inode-some q p at =
      let linked : 0 < links q r.nodes_head =
        ground (arith, w.counted q, (w.payloads q p at).live) in
      let (n, found, same) =
        node_with_complete r.heap r.nodes_head q p covers
          (λ q' p' at' e. w.distinct q' q p' p at' at e) at linked in
      rw found (rw same at)

  -- What is found by a number has that number, and stands at a node that is found.
  pub inode-inv :
      (ino : ℕ) (p : Payload)
      → inode r ino ≡ some p
      → (n : Node) × (node_with r.heap r.nodes_head ino ≡ some n)
        × (r.heap n.payload ≡ some p)
        × (load r.heap n.payload ≡ done p)
        × (n.payload ≢ null)
        × (p.meta.ino ≡ ino)
  unfolding inode
  inode-inv ino p e = elim (Option-cases (node_with r.heap r.nodes_head ino)) [
    | inl none_found ↦ absurd (ground (arith, none_found, e))
    | inr (n, found) ↦
        let (p', at, loads, nn, same) = node_with-found r.heap r.nodes_head ino n covers found in
        let eq : p' ≡ p = ground (arith, found, e, at) in
        (n, found, rw (← eq) at, rw (← eq) loads, nn, rw (← eq) same)
  ]

  -- A number that no payload in memory has is not found.
  pub inode-none :
      (ino : ℕ)
      → ((q : Ptr) (p : Payload) → r.heap q ≡ some p → p.meta.ino ≢ ino)
      → inode r ino ≡ none
  inode-none ino absent = elim (Option-cases (inode r ino)) [
    | inl e ↦ e
    | inr (p, e) ↦
        let (n, found, at, loads, nn, same) = inode-inv ino p e in
        absurd (absent n.payload p at same)
  ]

  pub inode-IsNone : (ino : ℕ) → inode r ino ≡ none → node_with r.heap r.nodes_head ino ≡ none
  unfolding inode
  inode-IsNone ino e = elim (Option-cases (node_with r.heap r.nodes_head ino)) [
    | inl none_found ↦ none_found
    | inr (n, found) ↦
        let (p', at, loads, nn, same) = node_with-found r.heap r.nodes_head ino n covers found in
        absurd (ground (arith, found, e, at))
  ]

  -- The search by number answers a node of that payload.
  pub find_node_by_ino-eq :
      (ino : ℕ)
      → find_node_by_ino r.heap r.nodes_head ino ≡ done (node_with r.heap r.nodes_head ino)
  find_node_by_ino-eq ino = find_node_by_ino-node_with r.heap r.nodes_head ino covers

  -- The payload behind a node that a search by name finds.
  pub find_child-found :
      (parent : ℕ) (name : List ℕ) (n : Node)
      → find_child r.nodes_head parent name ≡ some n
      → (p : Payload) × (r.heap n.payload ≡ some p)
        × (load r.heap n.payload ≡ done p)
        × (n.payload ≢ null)
        × (entry r parent name ≡ some p.meta.ino)
  unfolding entry
  find_child-found parent name n e =
      let (hit, linked) = find_child-some r.nodes_head parent name n e in
      let (p, at, loads, nn) = load-linked r.heap n.payload covers linked in
      (p, at, loads, nn, rw e (rw at refl))

  pub is_directory-dir_at :
      (ino : ℕ) → is_directory r.heap (node_with r.heap r.nodes_head ino) ≡ done (dir_at r ino)
  unfolding is_directory
  is_directory-dir_at ino = elim (Option-cases (inode r ino)) [
    | inl e ↦ rw (inode-IsNone ino e, e)
    | inr (p, e) ↦
        let (n, found, at, loads, nn, same) = inode-inv ino p e in
        let nz : (n.payload == null) ≡ false = ground arith in rw (found, nz, loads, e)
  ]

  -- A directory is a parent.
  pub HasParent-dir_at : (n : Node) → dir_at r n.parent_ino ≡ true → HasParent r.heap n
  HasParent-dir_at n e = elim (Option-cases (inode r n.parent_ino)) [
    | inl absent ↦ absurd (ground (arith, absent, e))
    | inr (p, there) ↦
        let (m, found, at, loads, nn, same) = inode-inv n.parent_ino p there in
        inr (m.payload, p, at, ground (arith, there, e), same)
  ]

-- Two well-formed storages that hold the same payloads with a number agree on the number.
pub inode-ext :
    (r r' : Ram) (ino : ℕ)
    → IsWellFormed r
    → IsWellFormed r'
    → ((q : Ptr) (p : Payload) → r.heap q ≡ some p → p.meta.ino ≡ ino → r'.heap q ≡ some p)
    → ((q : Ptr) (p : Payload) → r'.heap q ≡ some p → p.meta.ino ≡ ino → r.heap q ≡ some p)
    → inode r' ino ≡ inode r ino
inode-ext r r' ino w w' to from = elim (Option-cases (inode r ino)) [
  | inl e ↦
      rw e (
        inode-none r' w' ino
          λ q p at same. ground (arith, inode-some r w q p (from q p at same), e))
  | inr (p, e) ↦
      let (n, found, at, loads, nn, same) = inode-inv r w ino p e in
      rw e (rw (← same) (inode-some r' w' n.payload p (to n.payload p at same)))
]
