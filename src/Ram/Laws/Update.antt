-- ===== src/Ram/Laws/Update.antt =====
-- A write to the file behind an inode number.
use os_course_lab.Base.{
  ℕ, ◌+◌, ◌^◌, ◌<◌, ◌≡◌, refl, ◌⊎◌, inl, inr, false, none, some, List, arith, ◌==◌, if◌then◌else◌,
  Option-cases, Bool-cases, Ensures, Ensures-bind,
}
use os_course_lab.Interface.{Result, ok, err, enoent}
use os_course_lab.Ram.State.{Ptr, null, Payload, Ram, update}
use os_course_lab.Ram.Find.{find_child, find_payload_by_ino}
use os_course_lab.Ram.Content.{Kernel, IsDocumented, write_payload, write_body}
use os_course_lab.Ram.WellFormed.{IsPayload, IsWellFormed}
use os_course_lab.Ram.WellFormed.Add.{KeepsDirs, All-KeepsDirs}
use os_course_lab.Ram.View.{
  inode, entry, inode-some, inode-inv, inode-ext, inode-IsNone, find_node_by_ino-eq,
  find_child-found,
}
use os_course_lab.Ram.Laws.Write.{IsSameInode, IsWritten, WriteRefused, Wrote, write_payload-Wrote}

-- The view after the payload `p` of an inode becomes `p'`.
pub record IsUpdated (p p' : Payload) (r r' : Ram) : Type 0 where
  pub entries : (parent : ℕ) (name : List ℕ) → entry r' parent name ≡ entry r parent name
  pub inodes : (ino : ℕ) → inode r' ino ≡ (if ino == p.meta.ino then some p' else inode r ino)

module _ (r : Ram) (w : IsWellFormed r) (q : Ptr) (p p' : Payload) (at : r.heap q ≡ some p)
    (good : IsPayload r.next_ino p') (same : IsSameInode p p') where
  changed : Ram
  changed = record r { heap = update r.heap q (some p') }

  heap-changed : (q' : Ptr) → changed.heap q' ≡ (if q' == q then some p' else r.heap q')
  unfolding changed update
  heap-changed q' = refl

  changed-some :
      (q' : Ptr) (b : Payload)
      → changed.heap q' ≡ some b
      → ((q' ≡ q) × (b ≡ p')) ⊎ (r.heap q' ≡ some b)
  changed-some q' b e = ground (arith, heap-changed q')

  changed-KeepsDirs : KeepsDirs r.heap changed.heap
  changed-KeepsDirs q' b was = elim (Bool-cases (q' == q)) [
    | inl it ↦
        (p', ground (arith, heap-changed q'), ground (arith, same.type), ground (arith, same.ino))
    | inr other ↦ (b, ground (arith, heap-changed q'), refl, refl)
  ]

  changed-IsWellFormed : IsWellFormed changed
  changed-IsWellFormed = record {
    no_null = ground (arith, heap-changed null, w.no_null, at);
    counted = λ q'. unfold changed in ground (arith, heap-changed q', w.counted q', same.refs, at);
    payloads = λ q' b e. elim (changed-some q' b e) [
      | inl (_, it) ↦ unfold changed in rw it good
      | inr old ↦ unfold changed in w.payloads q' b old
    ];
    distinct = λ q' q″ b b' e e' eq. ground (
      arith,
      changed-some q' b e,
      changed-some q″ b' e',
      same.ino,
      w.distinct q' q″ b b',
      w.distinct q q″ p b' at,
      w.distinct q' q b p,
    );
    addrs = unfold changed in w.addrs;
    names = unfold changed in w.names;
    parents = unfold changed in All-KeepsDirs r.nodes_head changed-KeepsDirs w.parents;
  }

  entries-changed : (parent : ℕ) (name : List ℕ) → entry changed parent name ≡ entry r parent name
  unfolding entry
  entries-changed parent name = elim (Option-cases (find_child r.nodes_head parent name)) [
    | inl e ↦ unfold changed in rw e
    | inr (m, e) ↦
        let (b, was, loads, nz, named) = find_child-found r w parent name m e in
        unfold changed in rw e (ground (arith, heap-changed m.payload, was, at, same.ino))
  ]

  inodes-changed :
      (ino : ℕ) → inode changed ino ≡ (if ino == p.meta.ino then some p' else inode r ino)
  inodes-changed ino = elim (Bool-cases (ino == p.meta.ino)) [
    | inl it ↦
        let number_of : ino ≡ p'.meta.ino = ground (arith, same.ino) in
        rw (it, number_of)
          (inode-some changed changed-IsWellFormed q p' (ground (arith, heap-changed q)))
    | inr other ↦ rw other (
        inode-ext r changed ino w changed-IsWellFormed
          (λ q' b was eq. ground (arith, heap-changed q', at, was, eq))
          (λ q' b was eq. ground (arith, heap-changed q', at, was, eq, same.ino)))
  ]

  pub update-IsWellFormed : IsWellFormed (record r { heap = update r.heap q (some p') })
  unfolding changed
  update-IsWellFormed = changed-IsWellFormed

  pub update-IsUpdated : IsUpdated p p' r (record r { heap = update r.heap q (some p') })
  unfolding changed
  update-IsUpdated = record { entries = entries-changed; inodes = inodes-changed }

abbrev pub WroteTo : Kernel → ℕ → List ℕ → (len offset : ℕ) → Ram → Result ℕ × Ram → Type 0
WroteTo k ino user len offset r (ok offset', r') =
    (p : Payload) × (p' : Payload) × IsWellFormed r'
    × (inode r ino ≡ some p)
    × (offset' ≡ offset + len)
    × IsWritten p user len offset p'
    × IsSameInode p p'
    × IsUpdated p p' r r'
WroteTo k ino user len offset r (err e, r') =
    ((e ≡ enoent) × (inode r ino ≡ none) × (r' ≡ r))
    ⊎ ((p : Payload) × (p' : Payload) × IsWellFormed r'
        × (inode r ino ≡ some p)
        × WriteRefused k e p user len offset p'
        × IsSameInode p p'
        × IsUpdated p p' r r')

module _ (k : Kernel) (ok_k : IsDocumented k) (r : Ram) (w : IsWellFormed r) (ino : ℕ)
    (user : List ℕ) (len offset : ℕ) (ho : offset < 2 ^ 64) (hl : len < 2 ^ 63) where
  store_back :
      (q : Ptr) (p : Payload)
      → r.heap q ≡ some p
      → inode r ino ≡ some p
      → (answer : Result ℕ × Payload) → Wrote k r.next_ino p user len offset answer
      → WroteTo k ino user len offset r
          (answer.0, record r { heap = update r.heap q (some answer.1) })
  store_back q p at is (ok offset', p') (good, same, off, written) = (
    p,
    p',
    update-IsWellFormed r w q p p' at good same,
    is,
    off,
    written,
    same,
    update-IsUpdated r w q p p' at good same,
  )
  store_back q p at is (err e, p') (good, same, why) = inr (
    p,
    p',
    update-IsWellFormed r w q p p' at good same,
    is,
    why,
    same,
    update-IsUpdated r w q p p' at good same,
  )

  -- With a documented kernel, on a well-formed storage, a write at an offset below 2 ^ 64 of a
  -- length below 2 ^ 63 never faults. Where it succeeds, the inode is a regular file, the range
  -- holds the user's bytes, the size is the larger of the old size and the end of the range, the
  -- file's other bytes and the rest of its payload's metadata stay, and so do all other inodes and
  -- all names. Where it is refused, the inode is missing, or its size and metadata stay and the
  -- reason holds: no regular file, an offset from 2 ^ 63 on, an end from 2 ^ 63 on, a krealloc
  -- that failed, or a copy that was not complete. The storage stays well formed.
  pub write_body-WroteTo :
      Ensures (WroteTo k ino user len offset r) (write_body k ino user len offset r)
  unfolding write_body find_payload_by_ino
  write_body-WroteTo = elim (Option-cases (inode r ino)) [
    | inl e ↦ rw (find_node_by_ino-eq r w ino, inode-IsNone r w ino e) (inl (refl, e, refl))
    | inr (p, e) ↦
        let (n, found, at, loads, nn, same) = inode-inv r w ino p e in
        let nz : (n.payload == null) ≡ false = ground arith in
        rw (find_node_by_ino-eq r w ino, found, nz, loads)
          (Ensures-bind (Wrote k r.next_ino p user len offset) (WroteTo k ino user len offset r)
            (write_payload k p user len offset) _ (store_back n.payload p at e)
            (write_payload-Wrote k ok_k r.next_ino p (w.payloads n.payload p at) user len offset ho
              hl))
  ]
