-- ===== src/Ram/Laws/Mount.antt =====
-- `init`, `shutdown` and `get_root`.
use os_course_lab.Base.{
  ℕ, ◌+◌, ◌^◌, ◌<◌, ◌≡◌, refl, ◌⊎◌, inl, inr, Option, none, some, List, [], ◌∷◌, arith, ◌==◌,
  if◌then◌else◌, Option-cases, Bool-cases, Ensures, Ensures-bind, ◌≢◌, ◌&&◌, str_eq,
}
use os_course_lab.Interface.{dir, Result, ok, err, enomem, root_ino}
use os_course_lab.Ram.State.{Ptr, null, Payload, Node, Storage, Heap, Ram, Super, update}
use os_course_lab.Ram.Find.{find_child, is_child}
use os_course_lab.Ram.Payload.{new_payload, alloc_payload, free_all_nodes}
use os_course_lab.Ram.Mount.{root_meta, root_node, storage_init, shutdown_mounted, storage_shutdown}
use os_course_lab.Ram.WellFormed.{IsWellFormed, IsSafeMount, IsSafe}
use os_course_lab.Ram.WellFormed.Lists.{refs, links, has_addr}
use os_course_lab.Ram.WellFormed.Search.{Covers, load-linked, links-head}
use os_course_lab.Ram.WellFormed.Counts.{dropped, payload_put-dropped}
use os_course_lab.Ram.View.{inode, entry, inode-some}

-- The part of the invariant that the release of the nodes needs.
record IsCounted (h : Heap) (ns : List Node) : Type 0 where
  no_null : h null ≡ none
  counted : (q : Ptr) → refs (h q) ≡ links q ns
  live : (q : Ptr) (p : Payload) → h q ≡ some p → (0 < p.ref_count) × (p.ref_count < 2 ^ 32)

IsCounted-Covers : {h : Heap} {ns : List Node} → IsCounted h ns → Covers h ns
IsCounted-Covers c = record { no_null = c.no_null; enough = λ q. omega (arith, c.counted q) }

IsCounted-dropped :
    {h : Heap} {ns : List Node} (n : Node) (p : Payload)
    → h n.payload ≡ some p
    → IsCounted h (n ∷ ns)
    → IsCounted (dropped h n.payload p) ns
unfolding dropped update links
IsCounted-dropped n p at c = record {
  no_null = ground (arith, c.no_null);
  counted = λ q. ground (arith, c.counted q);
  live = λ q b e. ground (arith, c.live q b, c.live n.payload p at);
}

-- Every node gives back its payload, none twice, and at the end none is left.
free_all_nodes-none :
    (ns : List Node) (h : Heap)
    → IsCounted h ns
    → Ensures (λ h'. (q : Ptr) → h' q ≡ none) (free_all_nodes ns h)
unfolding free_all_nodes
free_all_nodes-none [] h c = λ q. elim (Option-cases (h q)) [
  | inl e ↦ e
  | inr (p, e) ↦ absurd (unfold links in ground (arith, c.counted q, c.live q p e, e))
]
free_all_nodes-none (n ∷ ns) h c =
    let (p, at, loads, nn) = load-linked h n.payload (IsCounted-Covers c) (links-head n ns) in
    let (pos, small) = c.live n.payload p at in
    rw (payload_put-dropped h n.payload p loads nn pos small)
      (free_all_nodes-none ns (dropped h n.payload p) (IsCounted-dropped n p at c))

abbrev Freed : Super → Type 0
Freed sb = (sb.s_fs_info ≡ none) × ((q : Ptr) → sb.heap q ≡ none)

shutdown_mounted-Freed :
    (o : Option Storage) (h : Heap) → IsSafeMount o h → Ensures Freed (shutdown_mounted o h)
shutdown_mounted-Freed none h clean = (refl, clean)
shutdown_mounted-Freed (some s) h w =
    Ensures-bind (λ h'. (q : Ptr) → h' q ≡ none) Freed (free_all_nodes s.nodes_head h) _
      (λ h' gone. (refl, gone))
      (free_all_nodes-none s.nodes_head h (record {
        no_null = w.no_null;
        counted = w.counted;
        live = λ q p e. ((w.payloads q p e).live, (w.payloads q p e).counts);
      }))

-- From a safe state a shutdown never faults: no payload is freed twice, none is left in memory,
-- and nothing is mounted afterwards.
pub storage_shutdown_frees :
    (sb : Super)
    → IsSafe sb
    → Ensures
        (λ sb'. (sb'.s_fs_info ≡ none) × ((q : Ptr) → sb'.heap q ≡ none))
        (storage_shutdown sb)
unfolding storage_shutdown
storage_shutdown_frees sb safe = shutdown_mounted-Freed sb.s_fs_info sb.heap safe

abbrev pub mounted_root : Ptr → Ptr → Heap → Ram
mounted_root a q h = record {
  storage = record { nodes_head = root_node a q ∷ []; next_ino = root_ino + 1 };
  heap = update (alloc_payload q h) q (some (record new_payload { meta = root_meta }));
}

module _ (a q : Ptr) (h : Heap) (clean : (q' : Ptr) → h q' ≡ none) (nn : q ≢ null) where
  heap-root :
      (q' : Ptr)
      → (mounted_root a q h).heap q'
        ≡ (if q' == q then some (record new_payload { meta = root_meta }) else none)
  unfolding update alloc_payload
  heap-root q' = ground (arith, clean q')

  pub mounted_root-IsWellFormed : IsWellFormed (mounted_root a q h)
  mounted_root-IsWellFormed = record {
    no_null = ground (arith, heap-root null);
    counted = λ q'. unfold links in ground (arith, heap-root q');
    payloads = λ q' p e. ground (arith, heap-root q');
    distinct = λ q' q″ p p' e e' same. ground (arith, heap-root q', heap-root q″);
    addrs = unfold has_addr in (refl, tt);
    names = unfold find_child in (refl, tt);
    parents = (inl refl, tt);
  }

-- What mounting leaves: an error changes nothing, and else the root directory is all there is.
abbrev pub Initialised : (s a q : Ptr) → Super → Result (Unit {0}) × Super → Type 0
Initialised s a q sb (err e, sb') =
    (e ≡ enomem) × ((s ≡ null) ⊎ (a ≡ null) ⊎ (q ≡ null)) × (sb' ≡ sb)
Initialised s a q sb (ok _, sb') =
    (s ≢ null)
    × (r : Ram) × (sb' ≡ record { s_fs_info = some r.storage; heap = r.heap })
    × IsWellFormed r
    × (inode r 1000
        ≡ some (record {
          meta = record { ino = 1000; parent_ino = 0; type = dir; mode = 0o040777; size = 0 };
          bytes = [];
          capacity = 0;
          ref_count = 1;
        }))
    × ((parent : ℕ) (name : List ℕ)
        → entry r parent name ≡ (if (parent == 0) && str_eq [] name then some 1000 else none))

-- With no payload in memory, mounting never faults. It leaves a well-formed storage where the
-- inode number 1000 is an empty directory of mode 040777 with size 0, parent number 0 and one
-- link, and where the empty name under parent number 0 is the only name and has this number; or it
-- answers ENOMEM since one of the three allocations failed, and changes nothing.
pub storage_init-Initialised :
    (s a q : Ptr) (sb : Super)
    → ((q' : Ptr) → sb.heap q' ≡ none)
    → Ensures (Initialised s a q sb) (storage_init s a q sb)
unfolding storage_init
storage_init-Initialised s a q sb clean = elim (Bool-cases (s == null)) [
  | inl e ↦ rw e (refl, inl (ground arith), refl)
  | inr e ↦ elim (Bool-cases (a == null)) [
    | inl e' ↦ rw (e, e') (refl, inr (inl (ground arith)), refl)
    | inr e' ↦ elim (Bool-cases (q == null)) [
      | inl e″ ↦ rw (e, e', e″) (refl, inr (inr (ground arith)), refl)
      | inr e″ ↦
          let nn : q ≢ null = ground arith in
          let w = mounted_root-IsWellFormed a q sb.heap clean nn in
          let at = heap-root a q sb.heap clean nn q in
          rw (e, e', e″)
            (
              ground arith,
              mounted_root a q sb.heap,
              refl,
              w,
              inode-some (mounted_root a q sb.heap) w q (record new_payload { meta = root_meta })
                  (ground (arith, at)),
              λ parent name. unfold entry find_child is_child in ground (arith, at),
            )
    ]
  ]
]
