-- ===== src/Ram/Laws/RoundTrip.antt =====
-- One operation after another.
use os_course_lab.Base.{
  ℕ, ◌+◌, ◌^◌, ◌<◌, ◌≤◌, ◌≡◌, ◌≢◌, subst, refl, sym, ◌∙◌, ap, ◌⊎◌, inl, inr, true, false, none,
  some, List, arith, ◌==◌, done, Ensures, Ensures-mono, length, take, drop, take_all, str_eq_refl,
  str_eq→eq,
}
use os_course_lab.Base.Splice.{take-drop-take}
use os_course_lab.Interface.{NodeType, NodeMeta, Result, ok, err, enoent, efault, name_max}
use os_course_lab.Ram.State.{Ptr, Payload, Ram}
use os_course_lab.Ram.Payload.{new_payload}
use os_course_lab.Ram.Entries.{create_body, lookup_body, unlink_body}
use os_course_lab.Ram.Links.{link_body}
use os_course_lab.Ram.Content.{Kernel, IsDocumented, Transfer, read_body, write_body}
use os_course_lab.Ram.WellFormed.{IsWellFormed}
use os_course_lab.Ram.WellFormed.Lists.{has_addr}
use os_course_lab.Ram.View.{inode, entry, inode-inv, same_name}
use os_course_lab.Ram.Laws.Lookup.{lookup_body-entry}
use os_course_lab.Ram.Laws.Create.{create_body-Created}
use os_course_lab.Ram.Laws.Remove.{IsRemoved}
use os_course_lab.Ram.Laws.Unlink.{unlink_body-Unlinked}
use os_course_lab.Ram.Laws.Link.{IsLinked, link_body-Linked}
use os_course_lab.Ram.Laws.Read.{ReadFrom, HasRead, content, read_body-ReadFrom}
use os_course_lab.Ram.Laws.Write.{IsWritten, IsSameInode}
use os_course_lab.Ram.Laws.Update.{write_body-WroteTo}

module _ (k : Kernel) (user : List ℕ) (offset : ℕ) (p p' : Payload)
    (written : IsWritten p user (length user) offset p') (same : IsSameInode p p') where
  content-IsWritten : take (length user) (drop offset (content p')) ≡ user
  content-IsWritten =
      take-drop-take (length user) offset p'.meta.size (length user) p'.bytes
        (omega (arith, written.size))
      ∙ written.range
      ∙ take_all (length user) user (omega arith)

  -- A read of the range that was written.
  HasRead-IsWritten :
      (answer : Result Transfer)
      → HasRead k p' (length user) offset answer
      → ((answer ≡ err efault) × (k.copy_to_user user ≢ 0))
        ⊎ (answer ≡ ok (record { moved = user; offset = offset + length user }))
  HasRead-IsWritten (ok t) (bytes, next) =
      let all : t.moved ≡ user = bytes ∙ content-IsWritten in
      inr (ground (arith, all, next, ap (λ (l : List ℕ). length l) all))
  HasRead-IsWritten (err e) (inl (_, other)) =
      absurd (ground (arith, written.regular, same.type, other))
  HasRead-IsWritten (err e) (inr (inl (_, neg))) = absurd (omega (arith, written.fits))
  HasRead-IsWritten (err e) (inr (inr (why, failed))) =
      inl (ap err why, subst (λ (l : List ℕ). k.copy_to_user l ≢ 0) content-IsWritten failed)

-- With a documented kernel, on a well-formed storage, after a write of all the user's bytes (fewer
-- than 2 ^ 63, at an offset below 2 ^ 64) has succeeded, a read of the same range never faults and
-- changes nothing, and gives the bytes back with the offset that the write left, or EFAULT where
-- the copy of these bytes to the user is not complete.
pub read_body-write_body :
    (k : Kernel) (r r' : Ram) (ino : ℕ) (user : List ℕ) (offset offset' : ℕ)
    → IsDocumented k
    → IsWellFormed r
    → offset < 2 ^ 64
    → length user < 2 ^ 63
    → write_body k ino user (length user) offset r ≡ done (ok offset', r')
    → Ensures
        (λ (answer, r″).
          (r″ ≡ r')
          × (((answer ≡ err efault) × (k.copy_to_user user ≢ 0))
              ⊎ (answer ≡ ok (record { moved = user; offset = offset' }))))
        (read_body k ino (length user) offset r')
read_body-write_body k r r' ino user offset offset' ok_k w ho hl e =
    let (p, p', w', is, off, written, same, updated) =
      rw e at (write_body-WroteTo k ok_k r w ino user (length user) offset ho hl) in
    let (n, found, at, loads, nn, number) = inode-inv r w ino p is in
    let now : inode r' ino ≡ some p' = ground (arith, updated.inodes ino, number) in
    Ensures-mono (ReadFrom k ino (length user) offset r')
      (λ (answer, r″).
        (r″ ≡ r')
        × (((answer ≡ err efault) × (k.copy_to_user user ≢ 0))
            ⊎ (answer ≡ ok (record { moved = user; offset = offset' }))))
      (read_body k ino (length user) offset r')
      (λ (answer, r″) (stays, has). (stays, rw off (read_now answer p p' now written same has)))
      (read_body-ReadFrom k r' w' ino (length user) offset ho (omega arith))
  where
    read_now :
        (answer : Result Transfer) (p p' : Payload)
        → inode r' ino ≡ some p'
        → IsWritten p user (length user) offset p'
        → IsSameInode p p'
        → ((answer ≡ err enoent) × (inode r' ino ≡ none))
          ⊎ ((b : Payload) × (inode r' ino ≡ some b) × HasRead k b (length user) offset answer)
        → ((answer ≡ err efault) × (k.copy_to_user user ≢ 0))
          ⊎ (answer ≡ ok (record { moved = user; offset = offset + length user }))
    read_now answer p p' now written same (inl (_, absent)) = absurd (ground (arith, now, absent))
    read_now answer p p' now written same (inr (b, is, has)) =
        let it : b ≡ p' = ground (arith, now, is) in
        HasRead-IsWritten k user offset p p' written same answer (rw it at has)

-- On a well-formed storage, with a name within NAME_MAX, an inode counter that has not run out and
-- unused memory from the allocations, a lookup of a name right after its creation succeeded
-- answers the metadata that the creation answered.
pub lookup_body-create_body :
    (r r' : Ram) (q a : Ptr) (t : NodeType) (mode parent : ℕ) (name : List ℕ) (meta : NodeMeta)
    → IsWellFormed r
    → length name ≤ name_max
    → r.next_ino + 1 < 2 ^ 64
    → r.heap q ≡ none
    → has_addr a r.nodes_head ≡ false
    → create_body q a t mode parent name r ≡ done (ok meta, r')
    → lookup_body parent name r' ≡ done (ok meta, r')
lookup_body-create_body r r' q a t mode parent name meta w short room unused new_addr e =
    let (w', _, created) =
      rw e at (create_body-Created r w q a parent name short room unused new_addr t mode) in
    let here : same_name parent name parent name ≡ true = ground (arith, str_eq_refl name) in
    let named : entry r' parent name ≡ some meta.ino = created.entries parent name ∙ rw here refl in
    let self : (meta.ino == meta.ino) ≡ true = ground arith in
    let there : inode r' meta.ino ≡ some (record new_payload { meta = meta }) =
      created.inodes meta.ino ∙ rw self refl in
    rw (lookup_body-entry r' parent name w', named, there)

module _ (r r' r″ : Ram) (target parent parent' : ℕ) (name name' : List ℕ) (p b : Payload)
    (linked : IsLinked p parent' name' r r') (removed : IsRemoved b parent name r' r″)
    (number : p.meta.ino ≡ target) (is : inode r target ≡ some p) (live : 0 < p.ref_count)
    (named : entry r parent name ≡ some target) where
  apart : same_name parent' name' parent name ≡ false
  apart = ground (arith, linked.was_free, named, str_eq→eq name' name)

  apart' : same_name parent name parent' name' ≡ false
  apart' = ground (arith, linked.was_free, named, str_eq→eq name name')

  still_named : entry r' parent name ≡ some target
  still_named = linked.entries parent name ∙ rw apart named

  counted_twice : inode r' target ≡ some (record p { ref_count = p.ref_count + 1 })
  counted_twice =
      let self : (target == p.meta.ino) ≡ true = ground arith in linked.inodes target ∙ rw self refl

  same_file : (b.meta.ino ≡ target) × (b ≡ record p { ref_count = p.ref_count + 1 })
  same_file =
      let it : b.meta.ino ≡ target = ground (arith, still_named, removed.named) in
      (it, ground (arith, removed.inode_was, it, counted_twice))

  one_left : inode r″ target ≡ some p
  one_left =
      let (it, value) = same_file in
      let self : (target == b.meta.ino) ≡ true = ground (arith, it) in
      removed.inodes target ∙ rw (self, value) (ground (arith, live))

  kept_new : entry r″ parent' name' ≡ some target
  kept_new =
      let self : same_name parent' name' parent' name' ≡ true = ground (arith, str_eq_refl name') in
      removed.entries parent' name' ∙ rw apart' (linked.entries parent' name' ∙ rw (self, number))

  gone_old : entry r″ parent name ≡ none
  gone_old =
      let self : same_name parent name parent name ≡ true = ground (arith, str_eq_refl name) in
      removed.entries parent name ∙ rw self

-- On a well-formed storage, where a name has an inode with room for one more link, the inode gets
-- a second name within NAME_MAX by a link that succeeds with a node at an unused address, and the
-- first name is then unlinked with success: the inode is as it was, content and link count
-- included, the second name has it, and the first name is free.
pub inode-unlink_body-link_body :
    (r r' r″ : Ram) (a : Ptr) (target parent parent' : ℕ) (name name' : List ℕ)
    → IsWellFormed r
    → length name' ≤ name_max
    → ((p : Payload) → inode r target ≡ some p → p.ref_count + 1 < 2 ^ 32)
    → has_addr a r.nodes_head ≡ false
    → entry r parent name ≡ some target
    → link_body a target parent' name' r ≡ done (ok tt, r')
    → unlink_body parent name r' ≡ done (ok tt, r″)
    → (inode r″ target ≡ inode r target)
      × (entry r″ parent' name' ≡ some target)
      × (entry r″ parent name ≡ none)
inode-unlink_body-link_body r r' r″ a target parent parent' name name' w short room new_addr named e
      e' =
    let (p, w', is, reg, linked) =
      rw e at (link_body-Linked r w a target parent' name' short room new_addr) in
    let (b, w″, reg', removed) = rw e' at (unlink_body-Unlinked r' parent name w') in
    let (n, found, at, loads, nn, number) = inode-inv r w target p is in
    let live = (w.payloads n.payload p at).live in
    (
      one_left r r' r″ target parent parent' name name' p b linked removed number is live named
          ∙ sym is,
      kept_new r r' r″ target parent parent' name name' p b linked removed number is live named,
      gone_old r r' r″ target parent parent' name name' p b linked removed number is live named,
    )
