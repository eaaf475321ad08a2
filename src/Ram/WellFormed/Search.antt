-- ===== src/Ram/WellFormed/Search.antt =====
-- The searches of a storage whose reference counts cover its links: no search faults, and each
-- is the search of a list by a test.
use os_course_lab.Base.{
  ℕ, ◌≤◌, ◌<◌, ◌≡◌, refl, ◌≢◌, Bool, true, false, Option, none, some, List, [], ◌∷◌, arith, ◌==◌,
  if◌then◌else◌, done, Option-cases, inl, inr,
}
use os_course_lab.Ram.State.{Ptr, null, Payload, Node, Heap, load}
use os_course_lab.Ram.Find.{has_ino, find_node_by_ino}
use os_course_lab.Ram.WellFormed.Lists.{refs, links}

-- Every payload is allocated as often as it is pointed to, at least.
pub record Covers (h : Heap) (ns : List Node) : Type 0 where
  pub no_null : h null ≡ none
  pub enough : (q : Ptr) → links q ns ≤ refs (h q)

pub Covers-tail : {h : Heap} {n : Node} {ns : List Node} → Covers h (n ∷ ns) → Covers h ns
unfolding links
Covers-tail {n} c = record { no_null = c.no_null; enough = λ q. ground (arith, c.enough q) }

-- The inode number at an address.
unfoldable pub holds : Heap → ℕ → Ptr → Bool
holds h ino q = elim (h q) [ none ↦ false | some p ↦ p.meta.ino == ino ]

unfoldable pub node_with : Heap → List Node → ℕ → Option Node
node_with h [] ino = none
node_with h (n ∷ ns) ino = if holds h ino n.payload then some n else node_with h ns ino

pub links-head : (n : Node) (ns : List Node) → 0 < links n.payload (n ∷ ns)
unfolding links
links-head n ns = ground arith

module _ (h : Heap) where
  -- A payload that is pointed to can be read.
  pub load-linked :
      {ns : List Node} (q : Ptr)
      → Covers h ns
      → 0 < links q ns
      → (p : Payload) × (h q ≡ some p) × (load h q ≡ done p) × (q ≢ null)
  unfolding load
  load-linked q c pos = elim (Option-cases (h q)) [
    | inl e ↦ absurd (ground (arith, c.enough q))
    | inr (p, e) ↦ (p, e, ground (arith, c.no_null), ground (arith, c.no_null))
  ]

  has_ino-holds :
      {ns : List Node} (ino : ℕ) (n : Node)
      → Covers h (n ∷ ns)
      → has_ino h ino n ≡ done (holds h ino n.payload)
  unfolding has_ino holds
  has_ino-holds {ns} ino n c =
      let (p, at, loads, nn) = load-linked n.payload c (links-head n ns) in ground arith

  -- The search for an inode number does not fault.
  pub find_node_by_ino-node_with :
      (ns : List Node) (ino : ℕ)
      → Covers h ns
      → find_node_by_ino h ns ino ≡ done (node_with h ns ino)
  unfolding find_node_by_ino node_with
  find_node_by_ino-node_with [] ino c = refl
  find_node_by_ino-node_with (n ∷ ns) ino c =
      ground (arith, has_ino-holds ino n c, find_node_by_ino-node_with ns ino (Covers-tail c))

  pub node_with-some :
      (ns : List Node) (ino : ℕ) (n : Node)
      → node_with h ns ino ≡ some n
      → (holds h ino n.payload ≡ true) × (0 < links n.payload ns)
  unfolding node_with links
  node_with-some [] ino n e = ground arith
  node_with-some (m ∷ ns) ino n e = ground (arith, node_with-some ns ino n)

  -- Where the search finds nothing, no linked payload has the number.
  pub node_with-none :
      (ns : List Node) (ino : ℕ) (q : Ptr)
      → node_with h ns ino ≡ none
      → 0 < links q ns
      → holds h ino q ≡ false
  unfolding node_with links
  node_with-none [] ino q e pos = absurd (omega arith)
  node_with-none (m ∷ ns) ino q e pos = ground (arith, node_with-none ns ino q)

  -- A node that is found points to a payload with the number.
  pub node_with-found :
      (ns : List Node) (ino : ℕ) (n : Node)
      → Covers h ns
      → node_with h ns ino ≡ some n
      → (p : Payload) × (h n.payload ≡ some p)
        × (load h n.payload ≡ done p)
        × (n.payload ≢ null)
        × (p.meta.ino ≡ ino)
  node_with-found ns ino n c e =
      let (hit, pos) = node_with-some ns ino n e in
      let (p, at, loads, nn) = load-linked n.payload c pos in
      (p, at, loads, nn, unfold holds in ground (arith, hit, at))

  -- Where the inode numbers tell the payloads apart, a linked payload is found by its number.
  pub node_with_complete :
      (ns : List Node) (q : Ptr) (p : Payload)
      → Covers h ns
      → ((q' : Ptr) (p' : Payload) → h q' ≡ some p' → p'.meta.ino ≡ p.meta.ino → q' ≡ q)
      → h q ≡ some p
      → 0 < links q ns
      → (n : Node) × (node_with h ns p.meta.ino ≡ some n) × (n.payload ≡ q)
  node_with_complete ns q p c unique at pos = elim (Option-cases (node_with h ns p.meta.ino)) [
    | inl e ↦ absurd (unfold holds in ground (arith, node_with-none ns p.meta.ino q e pos, at))
    | inr (n, e) ↦
        let (p', at', loads, nn, same) = node_with-found ns p.meta.ino n c e in
        (n, e, unique n.payload p' at' same)
  ]
