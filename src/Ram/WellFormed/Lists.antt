-- ===== src/Ram/WellFormed/Lists.antt =====
-- The parts of the invariant that go through the list of nodes, and what unlinking a node does to
-- them.
use os_course_lab.Base.{
  ℕ, suc, ◌≡◌, refl, Bool, true, false, Option, none, some, List, [], ◌∷◌, arith, ◌==◌, ◌≢◌, inl,
  inr, Bool-cases, if◌then◌else◌,
}
use os_course_lab.Ram.State.{Ptr, Payload, Node}
use os_course_lab.Ram.Find.{find_child}
use os_course_lab.Ram.Entries.{take_out, found_after}

abbrev pub All : (Node → Type 0) → List Node → Type 0
All P [] = Unit
All P (n ∷ ns) = P n × All P ns

abbrev pub refs : Option Payload → ℕ
refs none = 0
refs (some p) = p.ref_count

-- How many nodes point to the payload at `q`.
unfoldable pub links : Ptr → List Node → ℕ
links q [] = 0
links q (n ∷ ns) = if n.payload == q then suc (links q ns) else links q ns

unfoldable pub has_addr : Ptr → List Node → Bool
has_addr a [] = false
has_addr a (n ∷ ns) = if n.addr == a then true else has_addr a ns

-- No two nodes stand at one address.
abbrev pub NodupAddrs : List Node → Type 0
NodupAddrs [] = Unit
NodupAddrs (n ∷ ns) = (has_addr n.addr ns ≡ false) × NodupAddrs ns

-- No two nodes of one directory have one name.
abbrev pub NoTwins : List Node → Type 0
NoTwins [] = Unit
NoTwins (n ∷ ns) = (find_child ns n.parent_ino n.name ≡ none) × NoTwins ns

pub All-mono :
    (P Q : Node → Type 0) → ((n : Node) → P n → Q n) → (ns : List Node) → All P ns → All Q ns
All-mono P Q f [] h = tt
All-mono P Q f (n ∷ ns) h = (f n h.0, All-mono P Q f ns h.1)

-- `n` is a node of the first list, and the second is the first without it.
pub data Removed (n : Node) : List Node → List Node → Type 0 where
  here : {ns : List Node} → Removed n (n ∷ ns) ns
  there : {m : Node} {ns rest : List Node} → Removed n ns rest → Removed n (m ∷ ns) (m ∷ rest)

abbrev pub Taken : (Node → Bool) → List Node → Option (Node × List Node) → Type 0
Taken test ns none = All (λ n. test n ≡ false) ns
Taken test ns (some (n, rest)) = (test n ≡ true) × Removed n ns rest

Taken-cons :
    (test : Node → Bool) (m : Node) (ns : List Node) (o : Option (Node × List Node))
    → test m ≡ false
    → Taken test ns o
    → Taken test (m ∷ ns) (found_after m o)
Taken-cons test m ns none e t = (e, t)
Taken-cons test m ns (some (n, rest)) e t = (t.0, there t.1)

pub take_out-Taken : (test : Node → Bool) (ns : List Node) → Taken test ns (take_out test ns)
unfolding take_out
take_out-Taken test [] = tt
take_out-Taken test (m ∷ ns) = elim (Bool-cases (test m)) [
  | inl e ↦ rw e (e, here)
  | inr e ↦ rw e (Taken-cons test m ns (take_out test ns) e (take_out-Taken test ns))
]

module _ {n : Node} where
  pub links-Removed :
      {ns rest : List Node} (q : Ptr)
      → Removed n ns rest
      → links q ns ≡ (if n.payload == q then suc (links q rest) else links q rest)
  unfolding links
  links-Removed q here = refl
  links-Removed q (there r) = ground (arith, links-Removed q r)

  pub All-Removed :
      (P : Node → Type 0) {ns rest : List Node} → Removed n ns rest → All P ns → P n × All P rest
  All-Removed P here h = h
  All-Removed P (there r) h = let (p, t) = All-Removed P r h.1 in (p, (h.0, t))

  pub has_addr-Removed :
      {ns rest : List Node} (a : Ptr)
      → Removed n ns rest
      → has_addr a ns ≡ false
      → (has_addr a rest ≡ false) × (n.addr ≢ a)
  unfolding has_addr
  has_addr-Removed a here h = ground arith
  has_addr-Removed a (there r) h = ground (arith, has_addr-Removed a r)

  pub NodupAddrs-Removed :
      {ns rest : List Node} → Removed n ns rest → NodupAddrs ns → NodupAddrs rest
  NodupAddrs-Removed here h = h.1
  NodupAddrs-Removed (there {m} r) h = ((has_addr-Removed m.addr r h.0).0, NodupAddrs-Removed r h.1)

  pub find_child-Removed :
      {ns rest : List Node} (parent : ℕ) (name : List ℕ)
      → Removed n ns rest
      → find_child ns parent name ≡ none
      → find_child rest parent name ≡ none
  unfolding find_child
  find_child-Removed parent name here h = ground arith
  find_child-Removed parent name (there r) h = ground (arith, find_child-Removed parent name r)

  pub NoTwins-Removed : {ns rest : List Node} → Removed n ns rest → NoTwins ns → NoTwins rest
  NoTwins-Removed here h = h.1
  NoTwins-Removed (there {m} r) h =
      (find_child-Removed m.parent_ino m.name r h.0, NoTwins-Removed r h.1)
