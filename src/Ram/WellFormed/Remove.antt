-- ===== src/Ram/WellFormed/Remove.antt =====
-- Unlinking a node and dropping its reference keeps the storage well formed.
use os_course_lab.Base.{
  ℕ, ◌<◌, ◌≡◌, refl, ◌≢◌, ◌⊎◌, inl, inr, false, some, List, [], ◌∷◌, arith, ◌==◌, done, Bool-cases,
}
use os_course_lab.Interface.{is_dir, ok}
use os_course_lab.Ram.State.{Ptr, Payload, Node, Heap, Ram, load, update, with_nodes}
use os_course_lab.Ram.Entries.{remove_node}
use os_course_lab.Ram.WellFormed.{IsPayload, HasParent, IsWellFormed}
use os_course_lab.Ram.WellFormed.Lists.{
  All, refs, links, Removed, links-Removed, NodupAddrs-Removed, NoTwins-Removed, All-Removed,
}
use os_course_lab.Ram.WellFormed.Counts.{dropped, payload_put-dropped}
use os_course_lab.Ram.WellFormed.Search.{Covers, load-linked}

-- `m` is no entry of the directory that `p` is.
abbrev pub NotInside : Payload → Node → Type 0
NotInside p m = (is_dir p.meta.type ≡ false) ⊎ (m.parent_ino ≢ p.meta.ino)

pub IsWellFormed-Covers : {r : Ram} → IsWellFormed r → Covers r.heap r.nodes_head
IsWellFormed-Covers w = record { no_null = w.no_null; enough = λ q. omega (arith, w.counted q) }

module _ (h : Heap) (q : Ptr) (p : Payload) (at : h q ≡ some p) where
  -- A payload of the heap that is left was there before, with the same contents.
  pub dropped-some :
      (q' : Ptr) (p' : Payload)
      → dropped h q p q' ≡ some p'
      → (b : Payload) × (h q' ≡ some b)
        × (p'.meta ≡ b.meta)
        × (p'.bytes ≡ b.bytes)
        × (p'.capacity ≡ b.capacity)
  unfolding dropped update
  dropped-some q' p' e = elim (Bool-cases (q' == q)) [
    | inl same ↦ (p, ground arith, ground arith, ground arith, ground arith)
    | inr other ↦ (p', ground arith, refl, refl, refl)
  ]

  dropped-IsPayload :
      (next : ℕ) (q' : Ptr) (p' : Payload)
      → ((b : Payload) → h q' ≡ some b → IsPayload next b)
      → dropped h q p q' ≡ some p'
      → IsPayload next p'
  unfolding dropped update
  dropped-IsPayload next q' p' good e = elim (Bool-cases (q' == q)) [
    | inl same ↦ ground (arith, good p)
    | inr other ↦ ground (arith, good p')
  ]

  dropped-HasParent : (m : Node) → NotInside p m → HasParent h m → HasParent (dropped h q p) m
  unfolding dropped update
  dropped-HasParent m out (inl e) = inl e
  dropped-HasParent m out (inr (q', b, there, d, e)) = inr (q', b, ground arith, d, e)

-- A node of the list is linked, so its payload can be loaded.
pub links-pos : {n : Node} {ns rest : List Node} → Removed n ns rest → 0 < links n.payload ns
links-pos {n} gone = ground (arith, links-Removed n.payload gone)

-- All the nodes of the list have their parents, and none stands in the directory `p`.
All-HasParent :
    (h : Heap) (q : Ptr) (p : Payload)
    → h q ≡ some p
    → (ns : List Node) → All (NotInside p) ns
    → All (HasParent h) ns
    → All (HasParent (dropped h q p)) ns
All-HasParent h q p at [] out parents = tt
All-HasParent h q p at (m ∷ ns) out parents =
    (dropped-HasParent h q p at m out.0 parents.0, All-HasParent h q p at ns out.1 parents.1)

module _ (r : Ram) (w : IsWellFormed r) (n : Node) (rest : List Node)
    (gone : Removed n r.nodes_head rest) (p : Payload) (at : r.heap n.payload ≡ some p) where
  counted-dropped : (q : Ptr) → refs (dropped r.heap n.payload p q) ≡ links q rest
  unfolding dropped update
  counted-dropped q = ground (arith, w.counted q, links-Removed q gone)

  pub dropped-IsWellFormed :
      All (NotInside p) rest → IsWellFormed (with_nodes r rest (dropped r.heap n.payload p))
  dropped-IsWellFormed out = record {
    no_null = unfold dropped update in ground (arith, w.no_null);
    counted = counted-dropped;
    payloads =
        λ q' p' e. dropped-IsPayload r.heap n.payload p at r.next_ino q' p' (w.payloads q') e;
    distinct = λ q' q″ p' p″ e e' same.
        let (b, was, m, _, _) = dropped-some r.heap n.payload p at q' p' e in
        let (b', was', m', _, _) = dropped-some r.heap n.payload p at q″ p″ e' in
        w.distinct q' q″ b b' was was' (ground arith);
    addrs = NodupAddrs-Removed gone w.addrs;
    names = NoTwins-Removed gone w.names;
    parents =
        All-HasParent r.heap n.payload p at rest out
          (All-Removed (HasParent r.heap) gone w.parents).1;
  }

  pub remove_node-dropped :
      remove_node r n rest ≡ done (ok tt, with_nodes r rest (dropped r.heap n.payload p))
  remove_node-dropped =
      let (b, was, loads, nn) =
        load-linked r.heap n.payload (IsWellFormed-Covers w) (links-pos gone) in
      let loads' : load r.heap n.payload ≡ done p = ground (arith, loads, was, at) in
      let good = w.payloads n.payload p at in
      rw (payload_put-dropped r.heap n.payload p loads' nn good.live good.counts)
