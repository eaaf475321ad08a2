-- ===== src/Ram/Laws/Remove.antt =====
-- What the removal of a node does to the view: `unlink` and `rmdir` share it.
use os_course_lab.Base.{
  ℕ, ◌-◌, ◌<◌, ◌≡◌, ◌≢◌, refl, inl, inr, true, false, none, some, List, arith, ◌==◌, if◌then◌else◌,
  Option-cases, Bool-cases, str_eq→eq,
}
use os_course_lab.Ram.State.{Ptr, Payload, Node, Ram, update, with_nodes}
use os_course_lab.Ram.Find.{find_child, is_child}
use os_course_lab.Ram.WellFormed.{IsWellFormed}
use os_course_lab.Ram.WellFormed.Lists.{All, links, NoTwins, Removed, here, there, links-Removed}
use os_course_lab.Ram.WellFormed.Counts.{dropped}
use os_course_lab.Ram.WellFormed.Remove.{NotInside, dropped-some, dropped-IsWellFormed}
use os_course_lab.Ram.View.{
  same_name, inode, entry, number, behind, inode-some, inode-none, inode-ext, find_child-some,
}

-- A removed node answers to no other name.
is_child-Removed :
    {n : Node} {ns rest : List Node} (parent : ℕ) (name : List ℕ)
    → Removed n ns rest
    → find_child ns parent name ≡ none
    → is_child parent name n ≡ false
unfolding find_child
is_child-Removed parent name here e = ground arith
is_child-Removed parent name (there r) e = ground (arith, is_child-Removed parent name r)

pub is_child-eq :
    (parent : ℕ) (name : List ℕ) (n : Node)
    → is_child parent name n ≡ true
    → (n.parent_ino ≡ parent) × (n.name ≡ name)
unfolding is_child
is_child-eq parent name n e = (ground arith, str_eq→eq n.name name (ground arith))

-- Without twins, the removal of a node hides its name and no other.
pub find_child-without :
    {n : Node} {ns rest : List Node} (parent : ℕ) (name : List ℕ)
    → Removed n ns rest
    → NoTwins ns
    → find_child rest parent name
      ≡ (if is_child parent name n then none else find_child ns parent name)
unfolding find_child
find_child-without {n} parent name (here {ns}) twins = elim (Bool-cases (is_child parent name n)) [
  | inl hit ↦ let (e, e') = is_child-eq parent name n hit in rw hit (rw (← e, ← e') twins.0)
  | inr miss ↦ rw miss
]
find_child-without {n} parent name (there {m} r) twins =
    elim (Bool-cases (is_child parent name m)) [
      | inl hit ↦
          let (e, e') = is_child-eq parent name m hit in
          let other : is_child parent name n ≡ false =
            rw (← e, ← e') (is_child-Removed m.parent_ino m.name r twins.0) in
          rw (hit, other)
      | inr miss ↦ rw miss (find_child-without parent name r twins.1)
    ]

-- The node itself answers to its name.
pub find_child-Removed_self :
    {n : Node} {ns rest : List Node} (parent : ℕ) (name : List ℕ)
    → Removed n ns rest
    → NoTwins ns
    → is_child parent name n ≡ true
    → find_child ns parent name ≡ some n
unfolding find_child
find_child-Removed_self parent name here twins hit = rw hit
find_child-Removed_self {n} parent name (there {m} r) twins hit =
    elim (Bool-cases (is_child parent name m)) [
      | inl hit' ↦
          let (e, e') = is_child-eq parent name m hit' in
          let other : is_child parent name n ≡ false =
            rw (← e, ← e') (is_child-Removed m.parent_ino m.name r twins.0) in
          ground (arith, hit, other)
      | inr miss ↦ rw miss (find_child-Removed_self parent name r twins.1 hit)
    ]

-- The view after a name is removed whose payload was `p`.
pub record IsRemoved (p : Payload) (parent : ℕ) (name : List ℕ) (r r' : Ram) : Type 0 where
  pub named : entry r parent name ≡ some p.meta.ino
  pub inode_was : inode r p.meta.ino ≡ some p
  pub entries :
      (p' : ℕ) (n : List ℕ)
      → entry r' p' n ≡ (if same_name parent name p' n then none else entry r p' n)
  pub inodes :
      (ino : ℕ)
      → inode r' ino ≡ (
          if ino == p.meta.ino
          then if p.ref_count - 1 == 0
            then none
            else some (record p { ref_count = p.ref_count - 1 })
          else inode r ino)

pub named-Removed :
    (r : Ram) (w : IsWellFormed r) (n : Node) {rest : List Node} (p : Payload) (parent : ℕ)
    (name : List ℕ)
    → Removed n r.nodes_head rest
    → r.heap n.payload ≡ some p
    → is_child parent name n ≡ true
    → entry r parent name ≡ some p.meta.ino
unfolding entry
named-Removed r w n p parent name gone at hit =
    rw (find_child-Removed_self parent name gone w.names hit) (rw at)

module _ (r : Ram) (w : IsWellFormed r) (n : Node) (rest : List Node)
    (gone : Removed n r.nodes_head rest) (p : Payload) (at : r.heap n.payload ≡ some p) (parent : ℕ)
    (name : List ℕ) (hit : is_child parent name n ≡ true) (out : All (NotInside p) rest) where
  left : Ram
  left = with_nodes r rest (dropped r.heap n.payload p)

  left-IsWellFormed : IsWellFormed left
  unfolding left
  left-IsWellFormed = dropped-IsWellFormed r w n rest gone p at out

  -- The payload of a node that is left keeps its number.
  number-left :
      (m : Node)
      → 0 < links m.payload rest
      → number (left.heap m.payload) ≡ number (r.heap m.payload)
  unfolding left dropped update
  number-left m linked = ground (arith, w.counted m.payload, links-Removed m.payload gone, at)

  number_kept :
      (p' : ℕ) (n' : List ℕ)
      → find_child rest p' n' ≡ find_child r.nodes_head p' n'
      → number (behind left.heap (find_child rest p' n'))
        ≡ number (behind r.heap (find_child r.nodes_head p' n'))
  number_kept p' n' kept = elim (Option-cases (find_child rest p' n')) [
    | inl e ↦ rw (← kept, e)
    | inr (m, e) ↦ rw (← kept, e) (number-left m (find_child-some rest p' n' m e).1)
  ]

  inode_gone : (p.ref_count - 1 == 0) ≡ true → inode left p.meta.ino ≡ none
  inode_gone last =
      inode-none left left-IsWellFormed p.meta.ino λ q b stays same. no_payload q b stays same
    where
      no_payload : (q : Ptr) (b : Payload) → left.heap q ≡ some b → b.meta.ino ≢ p.meta.ino
      no_payload q b stays same =
          unfold left in
          let (b', was, m, _, _) = dropped-some r.heap n.payload p at q b stays in
          let it : q ≡ n.payload = w.distinct q n.payload b' p was at (ground arith) in
          unfold dropped update in ground (arith, last, it, stays)

  inode_dropped :
      inode left p.meta.ino
      ≡ (if p.ref_count - 1 == 0 then none else some (record p { ref_count = p.ref_count - 1 }))
  inode_dropped = elim (Bool-cases (p.ref_count - 1 == 0)) [
    | inl last ↦ rw last (inode_gone last)
    | inr more ↦ rw more (
        inode-some left left-IsWellFormed n.payload (record p { ref_count = p.ref_count - 1 })
          (unfold left dropped update in ground arith))
  ]

  entries-left :
      (p' : ℕ) (n' : List ℕ)
      → entry left p' n' ≡ (if same_name parent name p' n' then none else entry r p' n')
  unfolding left entry
  entries-left p' n' =
      let (e, e') = is_child-eq parent name n hit in
      let same : is_child p' n' n ≡ same_name parent name p' n' =
        unfold is_child in rw (e, e') refl in
      let without = find_child-without p' n' gone w.names in
      elim (Bool-cases (is_child p' n' n)) [
        | inl yes_hit ↦ rw (without, ← same, yes_hit)
        | inr no_hit ↦
            let kept : find_child rest p' n' ≡ find_child r.nodes_head p' n' =
              rw (without, no_hit) in
            rw (← same, no_hit) (number_kept p' n' kept)
      ]

  inodes-left :
      (ino : ℕ)
      → inode left ino ≡ (
          if ino == p.meta.ino
          then if p.ref_count - 1 == 0
            then none
            else some (record p { ref_count = p.ref_count - 1 })
          else inode r ino)
  inodes-left ino = elim (Bool-cases (ino == p.meta.ino)) [
    | inr other ↦ rw other (
        inode-ext r left ino w left-IsWellFormed
          (λ q b was same. unfold left dropped update in ground (arith, at, was, same))
          (λ q b was same. unfold left dropped update in ground (arith, at, was, same)))
    | inl same ↦ let it : ino ≡ p.meta.ino = ground arith in rw (same, it) inode_dropped
  ]

  pub left-IsRemoved : IsRemoved p parent name r (with_nodes r rest (dropped r.heap n.payload p))
  unfolding left
  left-IsRemoved = record {
    named = named-Removed r w n p parent name gone at hit;
    inode_was = inode-some r w n.payload p at;
    entries = entries-left;
    inodes = inodes-left;
  }
