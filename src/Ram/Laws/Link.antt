-- ===== src/Ram/Laws/Link.antt =====
-- `link`.
use os_course_lab.Base.{
  ℕ, ◌+◌, ◌^◌, ◌<◌, ◌≤◌, ◌≡◌, ◌≢◌, ◌⊎◌, refl, inl, inr, true, false, none, some, List, ◌∷◌, arith,
  ◌==◌, ==_iff, if◌then◌else◌, done, Option-cases, Bool-cases, Ensures, length, take_all,
}
use os_course_lab.Interface.{
  Errno, Result, ok, err, enoent, eexist, enotdir, enomem, eperm, is_file, name_max,
}
use os_course_lab.Ram.State.{Ptr, null, Payload, Ram, load, update, with_nodes}
use os_course_lab.Ram.Find.{find_child, is_child}
use os_course_lab.Ram.Entries.{new_node}
use os_course_lab.Ram.Links.{link_to, link_body}
use os_course_lab.Ram.WellFormed.{IsWellFormed}
use os_course_lab.Ram.WellFormed.Lists.{has_addr}
use os_course_lab.Ram.WellFormed.Counts.{shared, payload_get-shared}
use os_course_lab.Ram.WellFormed.Add.{linked-IsWellFormed}
use os_course_lab.Ram.View.{
  same_name, inode, entry, dir_at, inode-some, inode-inv, inode-ext, inode-IsNone, find_child-found,
  find_node_by_ino-eq, is_directory-dir_at, HasParent-dir_at,
}
use os_course_lab.Ram.Laws.Unlink.{not_file}

-- The view after one more name for the inode whose payload is `p`.
pub record IsLinked (p : Payload) (parent : ℕ) (name : List ℕ) (r r' : Ram) : Type 0 where
  pub was_free : entry r parent name ≡ none
  pub in_directory : dir_at r parent ≡ true
  pub entries :
      (p' : ℕ) (n : List ℕ)
      → entry r' p' n ≡ (if same_name parent name p' n then some p.meta.ino else entry r p' n)
  pub inodes :
      (ino : ℕ)
      → inode r' ino ≡ (
          if ino == p.meta.ino
          then some (record p { ref_count = p.ref_count + 1 })
          else inode r ino)

-- The reasons for which a link is refused.
abbrev pub NotLinked : Errno → Ram → (target parent : ℕ) → List ℕ → Ptr → Type 0
NotLinked e r target parent name a =
    ((e ≡ enoent) × (inode r target ≡ none))
    ⊎ ((e ≡ eperm) × (not_file (inode r target) ≡ true))
    ⊎ ((e ≡ enotdir) × (dir_at r parent ≡ false))
    ⊎ ((e ≡ eexist) × (entry r parent name ≢ none))
    ⊎ ((e ≡ enomem) × (a ≡ null))

abbrev pub Linked : Ptr → (target parent : ℕ) → List ℕ → Ram → Result (Unit {0}) × Ram → Type 0
Linked a target parent name r (ok _, r') =
    (p : Payload) × IsWellFormed r'
    × (inode r target ≡ some p)
    × (is_file p.meta.type ≡ true)
    × IsLinked p parent name r r'
Linked a target parent name r (err e, r') = (r' ≡ r) × NotLinked e r target parent name a

module _ (r : Ram) (w : IsWellFormed r) (a : Ptr) (target parent : ℕ) (name : List ℕ)
    (short : length name ≤ name_max)
    (room : (p : Payload) → inode r target ≡ some p → p.ref_count + 1 < 2 ^ 32)
    (new_addr : has_addr a r.nodes_head ≡ false) where
  module _ (q : Ptr) (p : Payload) (at : r.heap q ≡ some p) (nn : q ≢ null)
      (free : find_child r.nodes_head parent name ≡ none) (above : dir_at r parent ≡ true)
      (room_p : p.ref_count + 1 < 2 ^ 32) where
    more : Payload
    more = record p { ref_count = p.ref_count + 1 }

    joined : Ram
    joined = with_nodes r (new_node a q parent name ∷ r.nodes_head) (shared r.heap q p)

    all_linked-IsWellFormed :
        IsWellFormed (with_nodes r (new_node a q parent name ∷ r.nodes_head) (shared r.heap q p))
    all_linked-IsWellFormed =
        linked-IsWellFormed r w a q parent name nn new_addr short free p at room_p
          (HasParent-dir_at r w (new_node a q parent name) above)

    heap-joined : (q' : Ptr) → joined.heap q' ≡ (if q' == q then some more else r.heap q')
    unfolding joined shared update more
    heap-joined q' = ground arith

    entries-joined :
        (p' : ℕ) (n : List ℕ)
        → entry joined p' n ≡ (if same_name parent name p' n then some p.meta.ino else entry r p' n)
    unfolding entry
    entries-joined p' n = elim (Option-cases (find_child r.nodes_head p' n)) [
      | inl e ↦
          unfold joined more find_child is_child in
          rw (take_all name_max name short) (ground (arith, e, heap-joined q))
      | inr (m, e) ↦
          let (b, was, loads, nz, named) = find_child-found r w p' n m e in
          unfold joined more find_child is_child in
          rw (take_all name_max name short)
            (ground (arith, e, heap-joined q, heap-joined m.payload, at, was))
    ]

    inodes-joined :
        (ino : ℕ) → inode joined ino ≡ (if ino == p.meta.ino then some more else inode r ino)
    inodes-joined ino = elim (Bool-cases (ino == p.meta.ino)) [
      | inl same ↦
          let it : ino ≡ p.meta.ino = ground arith in
          rw (same, it) (inode_of_linked (heap-joined q))
      | inr other ↦ rw other (
          inode-ext r joined ino w (unfold joined in all_linked-IsWellFormed)
            (λ q' b was same. ground (arith, heap-joined q', at, was, same))
            (λ q' b was same. unfold more in ground (arith, heap-joined q', at, was, same)))
    ]
      where
        inode_of_linked :
            joined.heap q ≡ (if q == q then some more else r.heap q)
            → inode joined p.meta.ino ≡ some more
        inode_of_linked at' =
            unfold joined more in
            inode-some joined all_linked-IsWellFormed q more (ground (arith, at'))

    joined-IsLinked :
        IsLinked p parent name r
          (with_nodes r (new_node a q parent name ∷ r.nodes_head) (shared r.heap q p))
    unfolding joined more
    joined-IsLinked = record {
      was_free = unfold entry in rw free;
      in_directory = above;
      entries = entries-joined;
      inodes = inodes-joined;
    }

  module _ (q : Ptr) (p : Payload) (at : r.heap q ≡ some p) (loads : load r.heap q ≡ done p)
      (nn : q ≢ null) (there_is : inode r target ≡ some p) (reg : is_file p.meta.type ≡ true) where
    link_to-Linked : Ensures (Linked a target parent name r) (link_to a q parent name r)
    unfolding link_to
    link_to-Linked =
        rw (find_node_by_ino-eq r w parent, is_directory-dir_at r w parent)
          (elim (Bool-cases (dir_at r parent)) [
            | inr out ↦ rw out (refl, inr (inr (inl (refl, out))))
            | inl above ↦ elim (Option-cases (find_child r.nodes_head parent name)) [
              | inr (m, e) ↦
                  let (b, _, _, _, named) = find_child-found r w parent name m e in
                  rw (above, e, link_to) (refl, inr (inr (inr (inl (refl, ground (arith, named))))))
              | inl e ↦ elim (Bool-cases (a == null)) [
                | inl no_node ↦
                    rw (above, e, link_to, no_node)
                      (refl, inr (inr (inr (inr (refl, (==_iff a null).0 no_node)))))
                | inr yes_node ↦
                    let small = room p there_is in
                    rw (above, e, link_to, yes_node, payload_get-shared r.heap q p loads nn small)
                      (
                        p,
                        all_linked-IsWellFormed q p at nn e above small,
                        there_is,
                        reg,
                        joined-IsLinked q p at nn e above small,
                      )
              ]
            ]
          ])

  -- On a well-formed storage, with a name within NAME_MAX, a target with room for one more link
  -- and an allocation of the node that returns unused memory or NULL, a link never faults. It
  -- gives the regular file one more name, free until then, in an existing directory and counts it,
  -- changes no other name and no other inode, and keeps the storage well formed; or it changes
  -- nothing, since the target is missing or no regular file, the parent is no directory, the name
  -- is taken or the allocation failed.
  pub link_body-Linked : Ensures (Linked a target parent name r) (link_body a target parent name r)
  unfolding link_body
  link_body-Linked = rw (find_node_by_ino-eq r w target) (elim (Option-cases (inode r target)) [
    | inl e ↦ rw (inode-IsNone r w target e) (refl, inl (refl, e))
    | inr (p, e) ↦
        let (n, found, at, loads, nn, same) = inode-inv r w target p e in
        let nz : (n.payload == null) ≡ false = ground arith in
        elim (Bool-cases (is_file p.meta.type)) [
          | inr other ↦ rw (found, nz, loads, other) (refl, inr (inl (refl, rw (e, other))))
          | inl reg ↦ rw (found, nz, loads, reg) (link_to-Linked n.payload p at loads nn e reg)
        ]
  ])
