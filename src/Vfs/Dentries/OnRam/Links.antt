-- ===== src/Vfs/Dentries/OnRam/Links.antt =====
-- The link count of an inode in memory after `vtfs_link` on the RAM storage.
use os_course_lab.Base.{
  ℕ, ◌+◌, ◌^◌, ◌<◌, ◌≤◌, ◌≡◌, ◌≢◌, refl, ◌∙◌, true, false, Bool-cases, inl, inr, Option, some, List,
  ◌==◌, length, Ensures, Ensures-ends, arith,
}
use os_course_lab.Interface.{
  Errno, enoent, enomem, efault, eexist, enotdir, eisdir, einval, efbig, enotempty, eperm, Result,
  ok, err, name_max,
}
use os_course_lab.Ram.State.{Ram, Super, Payload, on_storage}
use os_course_lab.Ram.Links.{link, link_body, count_links}
use os_course_lab.Ram.WellFormed.{IsWellFormed}
use os_course_lab.Ram.WellFormed.Lists.{has_addr}
use os_course_lab.Ram.View.{inode, inode-inv}
use os_course_lab.Ram.Laws.Link.{Linked, link_body-Linked}
use os_course_lab.Ram.Laws.Lookup.{links_of, count_links_to_ino-links_of}
use os_course_lab.Vfs.Dentries.{Ptr, null, Inode, load_inode, put_inode}
use os_course_lab.Vfs.Dentries.Names.{Placed, s_isdir, link_answered, vtfs_link}
use os_course_lab.Vfs.Files.OnRam.{mounted}
use os_course_lab.Vfs.Dentries.OnRam.{Allocations, errno_code, code_of, ram_ops}

errno_code-nonzero : (e : Errno) → errno_code e ≢ 0
errno_code-nonzero eperm = omega arith
errno_code-nonzero enoent = omega arith
errno_code-nonzero enomem = omega arith
errno_code-nonzero efault = omega arith
errno_code-nonzero eexist = omega arith
errno_code-nonzero enotdir = omega arith
errno_code-nonzero eisdir = omega arith
errno_code-nonzero einval = omega arith
errno_code-nonzero efbig = omega arith
errno_code-nonzero enotempty = omega arith

-- The dentry has the inode of the old one, whose count is the storage's, one more than before.
pub record IsCounted (target : Ptr) (ino : ℕ) (r : Ram) (placed : Placed Super) : Type 0 where
  pub after : Ram
  pub stored : placed.vfs.storage ≡ mounted after
  pub well_formed : IsWellFormed after
  pub dentry : placed.d_inode ≡ some target
  pub inode_after : Inode
  pub in_memory : placed.vfs.inodes target ≡ some inode_after
  pub counted : inode_after.i_nlink ≡ links_of (inode after ino)
  pub one_more : inode_after.i_nlink ≡ links_of (inode r ino) + 1

module _ (a : Allocations) (r : Ram) (w : IsWellFormed r) (target parent : Ptr) (i dir : Inode)
    (inodes : Ptr → Option Inode) (name : List ℕ) (nn : target ≢ null)
    (at : inodes target ≡ some i) where
  -- After a link that succeeded
  link_success :
      (r' : Ram)
      → Linked (a.node (mounted r)) i.i_ino dir.i_ino name r (ok tt, r')
      → Ensures
          (IsCounted target i.i_ino r)
          (link_answered (ram_ops a) target i inodes (0, mounted r'))
  unfolding count_links put_inode
  link_success r' (p, w', there, reg, linked) =
      let (n, found, at_heap, loads, nn', same) = inode-inv r w i.i_ino p there in
      let now : inode r' i.i_ino ≡ some (record p { ref_count = p.ref_count + 1 }) =
        linked.inodes i.i_ino ∙ ground (arith, same) in
      let here : (target == target) ≡ true = ground arith in
      rw (count_links_to_ino-links_of r' i.i_ino w') (record {
        after = r';
        stored = refl;
        well_formed = w';
        dentry = refl;
        inode_after = record i { i_nlink = links_of (inode r' i.i_ino) };
        in_memory = rw here refl;
        counted = refl;
        one_more = rw (now, there) refl;
      })

  link_answer :
      (answer : Result (Unit {0})) (r' : Ram)
      → Linked (a.node (mounted r)) i.i_ino dir.i_ino name r (answer, r')
      → Ensures
          (λ placed. placed.code ≡ 0 → IsCounted target i.i_ino r placed)
          (link_answered (ram_ops a) target i inodes (code_of answer, mounted r'))
  link_answer (ok u) r' linked =
      let (placed, e, counted) =
        Ensures-ends (IsCounted target i.i_ino r)
          (link_answered (ram_ops a) target i inodes (0, mounted r')) (link_success r' linked) in
      rw e (λ zero_code. counted)
  link_answer (err e) r' linked =
      let other : (errno_code e == 0) ≡ false = ground (arith, errno_code-nonzero e) in
      rw other (λ zero_code. absurd (errno_code-nonzero e zero_code))

  -- On a well-formed RAM storage, with a name within NAME_MAX, a target in memory with room for
  -- one more link and an unused address for the node, `vtfs_link` never faults. Where it returns
  -- 0, the storage stays well formed, the new dentry has the target's inode, and the inode's link
  -- count is the storage's reference count, one more than before.
  pub vtfs_link-IsCounted :
      parent ≢ null
      → inodes parent ≡ some dir
      → length name ≤ name_max
      → ((p : Payload) → inode r i.i_ino ≡ some p → p.ref_count + 1 < 2 ^ 32)
      → has_addr (a.node (mounted r)) r.nodes_head ≡ false
      → Ensures
          (λ placed. placed.code ≡ 0 → IsCounted target i.i_ino r placed)
          (vtfs_link
            (ram_ops a)
            (some target)
            parent
            name
            (record { inodes = inodes; storage = mounted r }))
  unfolding vtfs_link load_inode link on_storage
  vtfs_link-IsCounted nn' at' short room fresh =
      let here : (target == null) ≡ false = ground arith in
      let there : (parent == null) ≡ false = ground arith in
      let ((answer, r'), e, linked) =
        Ensures-ends (Linked (a.node (mounted r)) i.i_ino dir.i_ino name r)
          (link_body (a.node (mounted r)) i.i_ino dir.i_ino name r)
          (link_body-Linked r w (a.node (mounted r)) i.i_ino dir.i_ino name short room fresh) in
      elim (Bool-cases (s_isdir (ram_ops a) i.i_mode)) [
        | inl is_directory ↦ rw (here, at, is_directory) (λ zero_code. absurd (omega arith))
        | inr regular ↦ rw (here, at, regular, there, at', e) (link_answer answer r' linked)
      ]
