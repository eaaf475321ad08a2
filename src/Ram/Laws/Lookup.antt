-- ===== src/Ram/Laws/Lookup.antt =====
-- `lookup`: what the view says of the name.
use os_course_lab.Base.{
  ℕ, ◌≡◌, inl, inr, false, Option, none, some, List, arith, ◌==◌, done, Option-cases,
}
use os_course_lab.Interface.{NodeMeta, Result, ok, err, enoent, root_ino}
use os_course_lab.Ram.State.{null, Payload, Ram}
use os_course_lab.Ram.Find.{find_child, count_links_to_ino, find_payload_by_ino}
use os_course_lab.Ram.Entries.{lookup_body}
use os_course_lab.Ram.Mount.{get_root_body}
use os_course_lab.Ram.WellFormed.{IsWellFormed}
use os_course_lab.Ram.View.{
  inode, entry, inode-some, find_child-found, inode-inv, inode-IsNone, find_node_by_ino-eq,
}

abbrev pub or_enoent : Option Payload → Result NodeMeta
or_enoent none = err enoent
or_enoent (some p) = ok p.meta

abbrev pub meta_of_ino : Ram → Option ℕ → Result NodeMeta
meta_of_ino r none = err enoent
meta_of_ino r (some ino) = or_enoent (inode r ino)

-- On a well-formed storage a lookup never faults, changes nothing, and answers the metadata of the
-- inode whose number the name has, or ENOENT where it has none.
pub lookup_body-entry :
    (r : Ram) (parent : ℕ) (name : List ℕ)
    → IsWellFormed r
    → lookup_body parent name r ≡ done (meta_of_ino r (entry r parent name), r)
unfolding lookup_body
lookup_body-entry r parent name w = elim (Option-cases (find_child r.nodes_head parent name)) [
  | inl e ↦ unfold entry in rw e
  | inr (n, e) ↦
      let (p, at, loads, nn, named) = find_child-found r w parent name n e in
      let nz : (n.payload == null) ≡ false = ground arith in
      rw (e, nz, loads, named, inode-some r w n.payload p at)
]

-- The number of links of an inode is its reference count, 0 where there is none.
abbrev pub links_of : Option Payload → ℕ
links_of none = 0
links_of (some p) = p.ref_count

-- On a well-formed storage the count of the links to an inode number never faults, and is the
-- reference count of the payload with this number, or 0 where there is none.
pub count_links_to_ino-links_of :
    (r : Ram) (ino : ℕ)
    → IsWellFormed r
    → count_links_to_ino r.heap r.nodes_head ino ≡ done (links_of (inode r ino))
unfolding count_links_to_ino find_payload_by_ino
count_links_to_ino-links_of r ino w = elim (Option-cases (inode r ino)) [
  | inl e ↦ rw (find_node_by_ino-eq r w ino, inode-IsNone r w ino e, e)
  | inr (p, e) ↦
      let (n, found, at, loads, nn, same) = inode-inv r w ino p e in
      let nz : (n.payload == null) ≡ false = ground arith in
      rw (find_node_by_ino-eq r w ino, found, nz, loads, e)
]

-- On a well-formed storage `get_root` never faults and changes nothing, and answers the metadata
-- of the inode with the root's number, or ENOENT where there is none.
pub get_root_body-inode :
    (r : Ram) → IsWellFormed r → get_root_body r ≡ done (or_enoent (inode r root_ino), r)
unfolding get_root_body
get_root_body-inode r w = elim (Option-cases (inode r root_ino)) [
  | inl e ↦ rw (find_node_by_ino-eq r w root_ino, inode-IsNone r w root_ino e, e)
  | inr (p, e) ↦
      let (n, found, at, loads, nn, same) = inode-inv r w root_ino p e in
      let nz : (n.payload == null) ≡ false = ground arith in
      rw (find_node_by_ino-eq r w root_ino, found, nz, loads, e)
]
