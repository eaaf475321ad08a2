-- ===== src/Ram/Laws/Rmdir.antt =====
-- `rmdir`.
use os_course_lab.Base.{
  ℕ, ◌≡◌, ◌≢◌, ◌⊎◌, refl, inl, inr, true, false, none, some, List, [], ◌∷◌, arith, ◌==◌,
  Option-cases, Bool-cases, Ensures, str_eq_refl,
}
use os_course_lab.Interface.{Result, ok, err, enoent, enotdir, enotempty, is_dir}
use os_course_lab.Ram.State.{null, Payload, Node, Ram}
use os_course_lab.Ram.Find.{find_child, is_child}
use os_course_lab.Ram.Entries.{rmdir_payload, rmdir_body, take_out, has_entries}
use os_course_lab.Ram.WellFormed.{IsWellFormed}
use os_course_lab.Ram.WellFormed.Lists.{
  All, Removed, here, there, NodupAddrs, has_addr-Removed, All-Removed, All-mono,
}
use os_course_lab.Ram.WellFormed.Remove.{NotInside, dropped-IsWellFormed, remove_node-dropped}
use os_course_lab.Ram.View.{entry, dir_at, inode-some, find_child-found, find_child-some}
use os_course_lab.Ram.Laws.Remove.{IsRemoved, left-IsRemoved}

-- A node that a search finds can be taken out of the list.
find_child-Removed :
    (ns : List Node) (parent : ℕ) (name : List ℕ) (n : Node)
    → find_child ns parent name ≡ some n
    → (rest : List Node) × Removed n ns rest
unfolding find_child
find_child-Removed [] parent name n e = absurd (ground arith)
find_child-Removed (m ∷ ns) parent name n e = elim (Bool-cases (is_child parent name m)) [
  | inl hit ↦ let it : m ≡ n = ground arith in (ns, rw it here)
  | inr miss ↦
      let (rest, gone) = find_child-Removed ns parent name n (ground arith) in
      (m ∷ rest, there gone)
]

-- The search by address finds the node itself.
take_out-addr :
    {n : Node} {ns rest : List Node}
    → Removed n ns rest
    → NodupAddrs ns
    → take_out (λ cur. cur.addr == n.addr) ns ≡ some (n, rest)
unfolding take_out
take_out-addr {n} here distinct = let same : (n.addr == n.addr) ≡ true = ground arith in rw same
take_out-addr {n} (there {m} gone) distinct =
    let (_, ne) = has_addr-Removed m.addr gone distinct.0 in
    let other : (m.addr == n.addr) ≡ false = ground (arith, ne) in
    rw (other, take_out-addr gone distinct.1)

has_entries-false :
    (ns : List Node) (ino : ℕ) → has_entries ns ino ≡ false → All (λ m. m.parent_ino ≢ ino) ns
unfolding has_entries
has_entries-false [] ino e = tt
has_entries-false (m ∷ ns) ino e = (ground arith, has_entries-false ns ino (ground arith))

-- An empty directory has no name in it.
find_child-empty :
    (ns : List Node) (ino : ℕ) (name : List ℕ)
    → has_entries ns ino ≡ false
    → find_child ns ino name ≡ none
unfolding has_entries find_child is_child
find_child-empty [] ino name e = refl
find_child-empty (m ∷ ns) ino name e = ground (arith, find_child-empty ns ino name)

has_entries-true :
    (ns : List Node) (ino : ℕ)
    → has_entries ns ino ≡ true
    → (name : List ℕ) × (m : Node) × (find_child ns ino name ≡ some m)
unfolding has_entries find_child is_child
has_entries-true [] ino e = absurd (ground arith)
has_entries-true (m ∷ ns) ino e = elim (Bool-cases (m.parent_ino == ino)) [
  | inl hit ↦ (m.name, m, rw (hit, str_eq_refl m.name))
  | inr miss ↦
      let (name, n, found) = has_entries-true ns ino (ground arith) in (name, n, rw miss found)
]

abbrev pub Rmdired : ℕ → List ℕ → Ram → Result (Unit {0}) × Ram → Type 0
Rmdired parent name r (ok _, r') =
    (p : Payload) × IsWellFormed r'
    × (is_dir p.meta.type ≡ true)
    × ((n : List ℕ) → entry r p.meta.ino n ≡ none)
    × IsRemoved p parent name r r'
Rmdired parent name r (err e, r') =
    (r' ≡ r)
    × (((e ≡ enoent) × (entry r parent name ≡ none))
        ⊎ ((e ≡ enotdir) × (ino : ℕ) × (entry r parent name ≡ some ino) × (dir_at r ino ≡ false))
        ⊎ ((e ≡ enotempty)
            × (ino : ℕ) × (entry r parent name ≡ some ino)
            × ((n : List ℕ) × (entry r ino n ≢ none))))

module _ (r : Ram) (parent : ℕ) (name : List ℕ) (w : IsWellFormed r) where
  module _ (n : Node) (found : find_child r.nodes_head parent name ≡ some n) (p : Payload)
      (at : r.heap n.payload ≡ some p) (named : entry r parent name ≡ some p.meta.ino) where
    rmdir_payload-empty :
        is_dir p.meta.type ≡ true
        → has_entries r.nodes_head p.meta.ino ≡ false
        → Ensures (Rmdired parent name r) (rmdir_payload r n p)
    rmdir_payload-empty d empty =
        let (rest, gone) = find_child-Removed r.nodes_head parent name n found in
        let out =
          (All-Removed (NotInside p) gone (
            All-mono (λ m. m.parent_ino ≢ p.meta.ino) (NotInside p) (λ m ne. inr ne) r.nodes_head
              (has_entries-false r.nodes_head p.meta.ino empty))).1 in
        rw (d, empty, take_out-addr gone w.addrs, remove_node-dropped r w n rest gone p at)
          (
            p,
            dropped-IsWellFormed r w n rest gone p at out,
            d,
            (λ n'. unfold entry in rw (find_child-empty r.nodes_head p.meta.ino n' empty)),
            left-IsRemoved r w n rest gone p at parent name
                (find_child-some r.nodes_head parent name n found).0 out,
          )

    rmdir_payload-Rmdired : Ensures (Rmdired parent name r) (rmdir_payload r n p)
    rmdir_payload-Rmdired = elim (Bool-cases (is_dir p.meta.type)) [
      | inr other ↦
          rw other
            (refl, inr (inl (refl, p.meta.ino, named, rw (inode-some r w n.payload p at, other))))
      | inl d ↦ elim (Bool-cases (has_entries r.nodes_head p.meta.ino)) [
        | inr empty ↦ rmdir_payload-empty d empty
        | inl full ↦
            let (n', m, inside) = has_entries-true r.nodes_head p.meta.ino full in
            let (b, _, _, _, there_is) = find_child-found r w p.meta.ino n' m inside in
            rw (d, full) (refl, inr (inr (refl, p.meta.ino, named, (n', ground (arith, there_is)))))
      ]
    ]

  -- On a well-formed storage a removal of a directory never faults. It takes away the name of a
  -- directory in which no name stands, drops one link of its inode, changes no other name and no
  -- other inode, and keeps the storage well formed; or it changes nothing, since there is no such
  -- name, or it is no directory's, or there is a name in it.
  pub rmdir_body-Rmdired : Ensures (Rmdired parent name r) (rmdir_body parent name r)
  unfolding rmdir_body
  rmdir_body-Rmdired = elim (Option-cases (find_child r.nodes_head parent name)) [
    | inl e ↦ rw (e, rmdir_body) (refl, inl (refl, unfold entry in rw e))
    | inr (n, e) ↦
        let (p, at, loads, nn, named) = find_child-found r w parent name n e in
        let nz : (n.payload == null) ≡ false = ground arith in
        rw (e, rmdir_body, nz, loads) (rmdir_payload-Rmdired n e p at named)
  ]
