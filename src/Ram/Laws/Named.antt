-- ===== src/Ram/Laws/Named.antt =====
-- `lookup`, told by the nodes of the list.
use os_course_lab.Base.{
  ℕ, ap, str_eq_refl, ◌≡◌, refl, ◌⊎◌, inl, inr, true, false, none, some, List, [], ◌∷◌, arith, ◌==◌,
  Option-cases, Bool-cases, Ensures,
}
use os_course_lab.Interface.{NodeMeta, Result, ok, err, enoent}
use os_course_lab.Ram.State.{null, Payload, Node, Heap, Ram}
use os_course_lab.Ram.Find.{find_child, is_child}
use os_course_lab.Ram.Entries.{lookup_body}
use os_course_lab.Ram.WellFormed.{IsWellFormed}
use os_course_lab.Ram.WellFormed.Lists.{NoTwins}
use os_course_lab.Ram.View.{find_child-found}
use os_course_lab.Ram.Laws.Remove.{is_child-eq}

-- Some node of the list has the parent, the name and the payload.
abbrev pub IsNamed : Heap → (parent : ℕ) → (name : List ℕ) → Payload → List Node → Type 0
IsNamed h parent name p [] = ⊥
IsNamed h parent name p (n ∷ ns) =
    ((n.parent_ino ≡ parent) × (n.name ≡ name) × (h n.payload ≡ some p))
    ⊎ IsNamed h parent name p ns

-- The answer for a name.
abbrev pub LookedUp : (parent : ℕ) → (name : List ℕ) → Ram → Result NodeMeta × Ram → Type 0
LookedUp parent name r (ok m, r') =
    (r' ≡ r)
    × ((p : Payload) × IsNamed r.heap parent name p r.nodes_head × (p.meta ≡ m))
    × ((p : Payload) → IsNamed r.heap parent name p r.nodes_head → p.meta ≡ m)
LookedUp parent name r (err e, r') =
    (r' ≡ r) × (e ≡ enoent) × ((p : Payload) → ¬ IsNamed r.heap parent name p r.nodes_head)

is_child_self :
    (parent : ℕ) (name : List ℕ) (n : Node)
    → n.parent_ino ≡ parent
    → n.name ≡ name
    → is_child parent name n ≡ true
unfolding is_child
is_child_self parent name n e e' = rw (e, e') (ground (arith, str_eq_refl name))

module _ (h : Heap) (parent : ℕ) (name : List ℕ) where
  find_child-IsNamed :
      (ns : List Node) (n : Node) (p : Payload)
      → find_child ns parent name ≡ some n
      → h n.payload ≡ some p
      → IsNamed h parent name p ns
  unfolding find_child
  find_child-IsNamed [] n p found at = absurd (ground (arith, found))
  find_child-IsNamed (m ∷ ns) n p found at = elim (Bool-cases (is_child parent name m)) [
    | inl hit ↦
        let it : m ≡ n = ground (arith, found, hit) in
        let (e, e') = is_child-eq parent name m hit in inl (e, e', rw it at)
    | inr miss ↦ inr (find_child-IsNamed ns n p (ground (arith, found, miss)) at)
  ]

  find_child-absent :
      (ns : List Node) (p : Payload)
      → find_child ns parent name ≡ none
      → IsNamed h parent name p ns
      → ⊥
  unfolding find_child
  find_child-absent [] p absent is = elim is [ ]
  find_child-absent (m ∷ ns) p absent (inl (e, e', at)) =
      ground (arith, absent, is_child_self parent name m e e')
  find_child-absent (m ∷ ns) p absent (inr later) = elim (Bool-cases (is_child parent name m)) [
    | inl hit ↦ ground (arith, absent, hit)
    | inr miss ↦ find_child-absent ns p (ground (arith, absent, miss)) later
  ]

-- One name has one payload.
named_once :
    (h : Heap) (parent : ℕ) (name : List ℕ) (ns : List Node) (p p' : Payload)
    → NoTwins ns
    → IsNamed h parent name p ns
    → IsNamed h parent name p' ns
    → p' ≡ p
named_once h parent name [] p p' twins is is' = elim is [ ]
named_once h parent name (n ∷ ns) p p' twins (inl (e, e', at)) (inl (i, i', at')) =
    ground (arith, at, at')
named_once h parent name (n ∷ ns) p p' twins (inl (e, e', at)) (inr later) =
    absurd (find_child-absent h parent name ns p' (rw (← e, ← e') twins.0) later)
named_once h parent name (n ∷ ns) p p' twins (inr later) (inl (e, e', at)) =
    absurd (find_child-absent h parent name ns p (rw (← e, ← e') twins.0) later)
named_once h parent name (n ∷ ns) p p' twins (inr later) (inr later') =
    named_once h parent name ns p p' twins.1 later later'

-- On a well-formed storage a lookup never faults and changes nothing. It answers the metadata of
-- the payload that stands at a node with this parent and this name, and no node with them has a
-- payload with other metadata; or it answers ENOENT, and no node with them has a payload.
pub lookup_body-LookedUp :
    (r : Ram) (parent : ℕ) (name : List ℕ)
    → IsWellFormed r
    → Ensures (LookedUp parent name r) (lookup_body parent name r)
unfolding lookup_body
lookup_body-LookedUp r parent name w = elim (Option-cases (find_child r.nodes_head parent name)) [
  | inl e ↦ rw e (refl, refl, λ p. find_child-absent r.heap parent name r.nodes_head p e)
  | inr (n, e) ↦
      let (p, at, loads, nn, named) = find_child-found r w parent name n e in
      let nz : (n.payload == null) ≡ false = ground arith in
      let is = find_child-IsNamed r.heap parent name r.nodes_head n p e at in
      rw (e, nz, loads)
        (
          refl,
          (p, is, refl),
          λ p' is'.
              ap (λ (q : Payload). q.meta)
                (named_once r.heap parent name r.nodes_head p p' w.names is is'),
        )
]
