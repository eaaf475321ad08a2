-- ===== src/Ram/WellFormed/Add.antt =====
-- Putting a node in front keeps the storage well formed: with a new payload, as creations do, or
-- with one more reference to a payload, as links do.
use os_course_lab.Base.{
  ℕ, ◌+◌, ◌%◌, ◌^◌, ◌≤◌, ◌<◌, ◌≡◌, refl, ◌≢◌, ◌⊎◌, inl, inr, false, none, some, List, [], ◌∷◌,
  arith, ◌==◌, length, Bool-cases, take_all,
}
use os_course_lab.Interface.{NodeMeta, name_max}
use os_course_lab.Ram.State.{Ptr, null, Payload, Node, Heap, Ram, update, with_nodes}
use os_course_lab.Ram.Find.{find_child}
use os_course_lab.Ram.Payload.{new_payload, alloc_payload}
use os_course_lab.Ram.Entries.{new_node, add_node}
use os_course_lab.Ram.WellFormed.{IsPayload, HasParent, IsWellFormed}
use os_course_lab.Ram.WellFormed.Lists.{All, links, has_addr, NoTwins}
use os_course_lab.Ram.WellFormed.Counts.{shared}

-- Every directory of the first heap is a directory of the second.
abbrev pub KeepsDirs : Heap → Heap → Type 0
KeepsDirs h h' =
    (q : Ptr) (p : Payload)
    → h q ≡ some p
    → (p' : Payload) × (h' q ≡ some p') × (p'.meta.type ≡ p.meta.type) × (p'.meta.ino ≡ p.meta.ino)

HasParent-KeepsDirs : {h h' : Heap} (n : Node) → KeepsDirs h h' → HasParent h n → HasParent h' n
HasParent-KeepsDirs n keeps (inl e) = inl e
HasParent-KeepsDirs n keeps (inr (q, p, at, d, e)) =
    let (p', at', t, i) = keeps q p at in inr (q, p', at', rw t d, rw i e)

pub All-KeepsDirs :
    {h h' : Heap} (ns : List Node) → KeepsDirs h h' → All (HasParent h) ns → All (HasParent h') ns
All-KeepsDirs [] keeps parents = tt
All-KeepsDirs (n ∷ ns) keeps parents =
    (HasParent-KeepsDirs n keeps parents.0, All-KeepsDirs ns keeps parents.1)

module _ (r : Ram) (w : IsWellFormed r) (a q : Ptr) (parent : ℕ) (name : List ℕ) (nn : q ≢ null)
    (new_addr : has_addr a r.nodes_head ≡ false) (short : length name ≤ name_max)
    (new_name : find_child r.nodes_head parent name ≡ none) where
  names-new : NoTwins (new_node a q parent name ∷ r.nodes_head)
  names-new = (rw (take_all name_max name short) new_name, w.names)

  -- A creation.
  module _ (meta : NodeMeta) (ino_next : meta.ino ≡ r.next_ino) (empty : meta.size ≡ 0)
      (room : r.next_ino + 1 < 2 ^ 64) (unused : r.heap q ≡ none)
      (above : HasParent r.heap (new_node a q parent name)) where
    made : Ram
    made = add_node a q parent name meta r

    made-KeepsDirs : KeepsDirs r.heap made.heap
    unfolding made update alloc_payload
    made-KeepsDirs q' p at = (p, ground arith, refl, refl)

    made-payload :
        (q' : Ptr) (p : Payload)
        → made.heap q' ≡ some p
        → ((q' ≡ q) × (p ≡ record new_payload { meta = meta })) ⊎ (r.heap q' ≡ some p)
    unfolding made update alloc_payload
    made-payload q' p e = ground arith

    made-IsPayload :
        (q' : Ptr) (p : Payload) → made.heap q' ≡ some p → IsPayload ((r.next_ino + 1) % 2 ^ 64) p
    made-IsPayload q' p e = elim (made-payload q' p e) [
      | inl (_, new) ↦ rw new (ground arith)
      | inr old ↦ ground (arith, w.payloads q' p old)
    ]

    made-distinct :
        (q' q″ : Ptr) (p p' : Payload)
        → made.heap q' ≡ some p
        → made.heap q″ ≡ some p'
        → p.meta.ino ≡ p'.meta.ino
        → q' ≡ q″
    made-distinct q' q″ p p' e e' same = ground (
      arith,
      made-payload q' p e,
      made-payload q″ p' e',
      w.payloads q' p,
      w.payloads q″ p',
      w.distinct q' q″ p p',
    )

    pub add_node-IsWellFormed : IsWellFormed (add_node a q parent name meta r)
    unfolding made
    add_node-IsWellFormed = record {
      no_null = unfold update alloc_payload in ground (arith, w.no_null);
      counted = λ q'. unfold update alloc_payload links in ground (arith, w.counted q');
      payloads = made-IsPayload;
      distinct = made-distinct;
      addrs = (new_addr, w.addrs);
      names = names-new;
      parents = (
        HasParent-KeepsDirs (new_node a q parent name) made-KeepsDirs above,
        All-KeepsDirs r.nodes_head made-KeepsDirs w.parents,
      );
    }

  -- A hard link.
  module _ (p : Payload) (at : r.heap q ≡ some p) (room : p.ref_count + 1 < 2 ^ 32)
      (above : HasParent r.heap (new_node a q parent name)) where
    linked : Ram
    linked = with_nodes r (new_node a q parent name ∷ r.nodes_head) (shared r.heap q p)

    linked-KeepsDirs : KeepsDirs r.heap linked.heap
    unfolding linked shared update
    linked-KeepsDirs q' b was = elim (Bool-cases (q' == q)) [
      | inl same ↦
          (record p { ref_count = p.ref_count + 1 }, ground arith, ground arith, ground arith)
      | inr other ↦ (b, ground arith, refl, refl)
    ]

    linked-some :
        (q' : Ptr) (b : Payload)
        → linked.heap q' ≡ some b
        → ((q' ≡ q) × (b ≡ record p { ref_count = p.ref_count + 1 })) ⊎ (r.heap q' ≡ some b)
    unfolding linked shared update
    linked-some q' b e = ground arith

    linked-IsPayload : (q' : Ptr) (b : Payload) → linked.heap q' ≡ some b → IsPayload r.next_ino b
    linked-IsPayload q' b e = elim (linked-some q' b e) [
      | inl (_, new) ↦ rw new (ground (arith, w.payloads q p at))
      | inr old ↦ w.payloads q' b old
    ]

    linked-distinct :
        (q' q″ : Ptr) (b b' : Payload)
        → linked.heap q' ≡ some b
        → linked.heap q″ ≡ some b'
        → b.meta.ino ≡ b'.meta.ino
        → q' ≡ q″
    linked-distinct q' q″ b b' e e' same = ground (
      arith,
      linked-some q' b e,
      linked-some q″ b' e',
      w.distinct q' q″ b b',
      w.distinct q q″ p b' at,
      w.distinct q' q b p,
    )

    pub linked-IsWellFormed :
        IsWellFormed (with_nodes r (new_node a q parent name ∷ r.nodes_head) (shared r.heap q p))
    unfolding linked
    linked-IsWellFormed = record {
      no_null = unfold shared update in ground (arith, w.no_null);
      counted = λ q'. unfold shared update links in ground (arith, w.counted q');
      payloads = linked-IsPayload;
      distinct = linked-distinct;
      addrs = (new_addr, w.addrs);
      names = names-new;
      parents = (
        HasParent-KeepsDirs (new_node a q parent name) linked-KeepsDirs above,
        All-KeepsDirs r.nodes_head linked-KeepsDirs w.parents,
      );
    }
