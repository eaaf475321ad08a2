-- ===== src/Ram/Laws/Create.antt =====
-- `create_file` and `mkdir`.
use os_course_lab.Base.{
  ℕ, ◌+◌, ◌^◌, ◌<◌, ◌≤◌, ◌≡◌, ◌≢◌, ◌⊎◌, refl, inl, inr, true, false, none, some, List, arith, ◌==◌,
  if◌then◌else◌, done, Option-cases, Bool-cases, Ensures, length, take_all, ==_iff,
}
use mathlib.Core.Path.{fun_ext}
use os_course_lab.Interface.{
  NodeType, NodeMeta, Errno, Result, ok, err, eexist, enotdir, enomem, name_max,
}
use os_course_lab.Ram.State.{Ptr, null, Heap, Ram, update, load}
use os_course_lab.Ram.Find.{find_child, is_child}
use os_course_lab.Ram.Payload.{new_payload, alloc_payload, payload_put}
use os_course_lab.Ram.Entries.{create_body, fresh_meta, new_node, add_node}
use os_course_lab.Ram.WellFormed.{IsWellFormed}
use os_course_lab.Ram.WellFormed.Lists.{has_addr}
use os_course_lab.Ram.WellFormed.Add.{add_node-IsWellFormed}
use os_course_lab.Ram.View.{
  same_name, inode, entry, dir_at, inode-some, inode-ext, find_child-found, find_node_by_ino-eq,
  is_directory-dir_at, HasParent-dir_at,
}

-- The reasons for which a creation is refused.
abbrev pub Refused : Errno → Ram → ℕ → List ℕ → Ptr → Ptr → Type 0
Refused e r parent name q a =
    ((e ≡ eexist) × (entry r parent name ≢ none))
    ⊎ ((e ≡ enotdir) × (entry r parent name ≡ none) × (dir_at r parent ≡ false))
    ⊎ ((e ≡ enomem) × ((q ≡ null) ⊎ (a ≡ null)))

-- The view after the creation of an inode.
pub record IsCreated (meta : NodeMeta) (parent : ℕ) (name : List ℕ) (r r' : Ram) : Type 0 where
  pub was_free : entry r parent name ≡ none
  pub in_directory : dir_at r parent ≡ true
  pub entries :
      (p : ℕ) (n : List ℕ)
      → entry r' p n ≡ (if same_name parent name p n then some meta.ino else entry r p n)
  pub inodes :
      (ino : ℕ)
      → inode r' ino
        ≡ (if ino == meta.ino then some (record new_payload { meta = meta }) else inode r ino)

abbrev pub Created :
    (q a : Ptr) → NodeType → (mode parent : ℕ) → List ℕ → Ram → Result NodeMeta × Ram → Type 0
Created q a t mode parent name r (ok meta, r') =
    IsWellFormed r' × (meta ≡ fresh_meta t mode parent r) × IsCreated meta parent name r r'
Created q a t mode parent name r (err e, r') =
    IsWellFormed r'
    × (r'.storage ≡ r.storage)
    × ((q' : Ptr) → r'.heap q' ≡ r.heap q')
    × Refused e r parent name q a

-- A heap with the same payloads serves as well.
IsWellFormed-ext :
    (r : Ram)
    → IsWellFormed r
    → (h : Heap) → ((q : Ptr) → h q ≡ r.heap q)
    → IsWellFormed (record r { heap = h })
IsWellFormed-ext r w h same = rw (fun_ext same) w

module _ (r : Ram) (w : IsWellFormed r) (q a : Ptr) (parent : ℕ) (name : List ℕ)
    (short : length name ≤ name_max) (room : r.next_ino + 1 < 2 ^ 64) (unused : r.heap q ≡ none)
    (new_addr : has_addr a r.nodes_head ≡ false) where
  module _ (meta : NodeMeta) (ino_next : meta.ino ≡ r.next_ino) (empty : meta.size ≡ 0)
      (nn : q ≢ null) (free : find_child r.nodes_head parent name ≡ none)
      (above : dir_at r parent ≡ true) where
    made : Ram
    made = add_node a q parent name meta r

    made-IsWellFormed : IsWellFormed (add_node a q parent name meta r)
    made-IsWellFormed =
        add_node-IsWellFormed r w a q parent name nn new_addr short free meta ino_next empty room
          unused (HasParent-dir_at r w (new_node a q parent name) above)

    heap-made :
        (q' : Ptr)
        → made.heap q' ≡ (if q' == q then some (record new_payload { meta = meta }) else r.heap q')
    unfolding made update alloc_payload
    heap-made q' = ground arith

    entries-made :
        (p : ℕ) (n : List ℕ)
        → entry made p n ≡ (if same_name parent name p n then some meta.ino else entry r p n)
    unfolding entry
    entries-made p n = elim (Option-cases (find_child r.nodes_head p n)) [
      | inl e ↦
          unfold made find_child is_child in
          rw (take_all name_max name short) (ground (arith, e, heap-made q))
      | inr (m, e) ↦
          let (b, at, loads, nz, named) = find_child-found r w p n m e in
          unfold made find_child is_child in
          rw (take_all name_max name short)
            (ground (arith, e, heap-made q, heap-made m.payload, at, unused))
    ]

    inodes-made :
        (ino : ℕ)
        → inode made ino
          ≡ (if ino == meta.ino then some (record new_payload { meta = meta }) else inode r ino)
    unfolding made
    inodes-made ino = elim (Bool-cases (ino == meta.ino)) [
      | inl same ↦
          let it : ino ≡ meta.ino = ground arith in
          rw same (
            rw it (
              inode-some made made-IsWellFormed q (record new_payload { meta = meta })
                (ground (arith, heap-made q))))
      | inr other ↦ rw other (
          inode-ext r made ino w made-IsWellFormed
            (λ q' p at same. ground (arith, heap-made q', at, unused))
            (λ q' p at same. ground (arith, heap-made q', at, same)))
    ]

    pub made-IsCreated : IsCreated meta parent name r (add_node a q parent name meta r)
    unfolding made
    made-IsCreated = record {
      was_free = unfold entry in rw free refl;
      in_directory = above;
      entries = entries-made;
      inodes = inodes-made;
    }

  heap-put_back :
      q ≢ null
      → (h : Heap) × (payload_put q (alloc_payload q r.heap) ≡ done h)
        × ((q' : Ptr) → h q' ≡ r.heap q')
  unfolding payload_put alloc_payload load update
  heap-put_back nn =
      let nz : (q == null) ≡ false = ground arith in
      (update (alloc_payload q r.heap) q none, ground arith, λ q'. ground arith)

  -- On a well-formed storage, with a name within NAME_MAX, an inode counter that has not run out
  -- and allocations that return unused memory or NULL, a creation never faults. It makes an empty
  -- inode with the next number under the name, which was free in an existing directory, and
  -- changes no other name and no other inode; or it is refused, since the name is taken, the
  -- parent is no directory or an allocation failed, and changes nothing. The storage stays well
  -- formed.
  pub create_body-Created :
      (t : NodeType) (mode : ℕ)
      → Ensures (Created q a t mode parent name r) (create_body q a t mode parent name r)
  unfolding create_body
  create_body-Created t mode = elim (Option-cases (find_child r.nodes_head parent name)) [
    | inr (n, e) ↦
        let (b, at, loads, nz, named) = find_child-found r w parent name n e in
        rw (e, create_body) (w, refl, λ q'. refl, inl (refl, ground (arith, named)))
    | inl e ↦
        let free : entry r parent name ≡ none = unfold entry in rw e refl in
        rw (e, find_node_by_ino-eq r w parent, create_body, is_directory-dir_at r w parent)
          (elim (Bool-cases (dir_at r parent)) [
            | inr out ↦ rw out (w, refl, λ q'. refl, inr (inl (refl, free, out)))
            | inl above ↦ rw above (elim (Bool-cases (q == null)) [
              | inl no_payload ↦
                  rw no_payload
                    (w, refl, λ q'. refl, inr (inr (refl, inl ((==_iff q null).0 no_payload))))
              | inr yes_payload ↦ rw yes_payload (elim (Bool-cases (a == null)) [
                | inl no_node ↦
                    let (h, puts, back) = heap-put_back (ground arith) in
                    rw (no_node, puts)
                      (
                        IsWellFormed-ext r w h back,
                        refl,
                        back,
                        inr (inr (refl, inr ((==_iff a null).0 no_node))),
                      )
                | inr yes_node ↦
                    let meta = fresh_meta t mode parent r in
                    rw yes_node (
                      made-IsWellFormed meta refl refl (ground arith) e above,
                      refl,
                      made-IsCreated meta refl refl (ground arith) e above,
                    )
              ])
            ])
          ])
  ]
