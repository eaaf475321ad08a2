-- ===== src/Vfs/Dentries/OnRam/Listed.antt =====
-- Reading a directory of the RAM storage to its end.
use os_course_lab.Base.{
  ℕ, zero, suc, ◌+◌, ◌-◌, ◌%◌, ◌^◌, ◌≤◌, ◌<◌, ◌≡◌, refl, ap, ◌∙◌, true, false, Option, none, some,
  List, [], ◌∷◌, Run, done, ◌>>=◌, ◌==◌, length, get_elem?, drop, map, arith,
}
use os_course_lab.Base.Text.{codes}
use os_course_lab.Interface.{Dirent, is_dir}
use os_course_lab.Ram.State.{Storage, Heap, Super, on_storage}
use os_course_lab.Ram.Entries.{iterate_dir}
use os_course_lab.Ram.WellFormed.{IsWellFormed}
use os_course_lab.Ram.Laws.Iterate.{
  entries_of, listing_answer, length-entries_of, iterate_dir_body-entries_of,
}
use os_course_lab.Vfs.Dentries.{NameOps}
use os_course_lab.Vfs.Dentries.Listing.{Entry, Directory, vtfs_iterate}
use os_course_lab.Vfs.Dentries.OnRam.{Allocations, ram_ops}

module _ {S : Type 0} (ops : NameOps S) where
  abbrev take_entry : Option Entry → List Entry → List Entry
  take_entry none es = es
  take_entry (some e) es = e ∷ es

  -- A caller that takes every entry, and calls `n` times.
  unfoldable pub read_all : (n : ℕ) → Directory → S → Run (List Entry × Directory × S)
  unfolding vtfs_iterate
  read_all zero d s = done ([], d, s)
  read_all (suc n) d s = do
    (e, d', s') ← vtfs_iterate ops true d s
    (es, d'', s'') ← read_all n d' s'
    done (take_entry e es, d'', s'')

abbrev pub entry_of : Dirent → Entry
entry_of e = record { name = e.name; ino = e.ino; is_dt_dir = is_dir e.type }

abbrev pub at_pos : (pos ino parent_ino : ℕ) → Directory
at_pos pos ino parent_ino = record { f_pos = pos; pos = pos; ino = ino; parent_ino = parent_ino }

-- "." and "..", then the entries of the storage.
abbrev pub all_entries : (ino parent_ino : ℕ) → List Dirent → List Entry
all_entries ino parent_ino es =
    record { name = codes "."; ino = ino; is_dt_dir = true }
    ∷ record { name = codes ".."; ino = parent_ino; is_dt_dir = true }
    ∷ map entry_of es

drop-get_elem? :
    (es : List Dirent) (k : ℕ)
    → k < length es
    → (e : Dirent) × (get_elem? es k ≡ some e) × (drop k es ≡ e ∷ drop (suc k) es)
drop-get_elem? [] k h = absurd (omega arith)
drop-get_elem? (e ∷ es) zero h = (e, refl, refl)
drop-get_elem? (e ∷ es) (suc k) h = drop-get_elem? es k (omega arith)

get_elem?-end : (es : List Dirent) (k : ℕ) → k ≡ length es → get_elem? es k ≡ none
get_elem?-end [] k h = refl
get_elem?-end (e ∷ es) zero h = absurd (omega arith)
get_elem?-end (e ∷ es) (suc k) h = get_elem?-end es k (omega arith)

drop_end : (es : List Dirent) (k : ℕ) → k ≡ length es → drop k es ≡ []
drop_end [] zero h = refl
drop_end [] (suc k) h = refl
drop_end (e ∷ es) zero h = absurd (omega arith)
drop_end (e ∷ es) (suc k) h = drop_end es k (omega arith)

module _ (a : Allocations) (s : Storage) (heap : Heap) (ino parent_ino : ℕ)
    (w : IsWellFormed (record { storage = s; heap = heap }))
    (small : length s.nodes_head < 2 ^ 63) where
  abbrev pub sb : Super
  sb = record { s_fs_info = some s; heap = heap }

  abbrev pub es : List Dirent
  es = entries_of heap ino s.nodes_head

  iterate_dir-es :
      (k : ℕ) → k ≤ length es → iterate_dir ino k sb ≡ done (listing_answer (get_elem? es k) k, sb)
  unfolding iterate_dir on_storage
  iterate_dir-es k h =
      rw (iterate_dir_body-entries_of (record { storage = s; heap = heap }) ino k w (omega arith))
        refl

  vtfs_iterate-entry :
      (k : ℕ) (e : Dirent)
      → k < length es
      → get_elem? es k ≡ some e
      → vtfs_iterate (ram_ops a) true (at_pos (k + 2) ino parent_ino) sb
        ≡ done (some (entry_of e), at_pos (k + 3) ino parent_ino, sb)
  unfolding vtfs_iterate
  vtfs_iterate-entry k e h found =
      let short = length-entries_of heap ino s.nodes_head in
      let n0 : ((k + 2) == 0) ≡ false = ground arith in
      let n1 : ((k + 2) == 1) ≡ false = ground arith in
      let off : (k + 2 + 2 ^ 64 - 2) % 2 ^ 64 ≡ k = omega arith in
      let next : (k + 2 + 1) % 2 ^ 64 ≡ k + 3 = omega arith in
      rw (n0, n1, off, iterate_dir-es k (omega arith), found, next) refl

  vtfs_iterate-past :
      vtfs_iterate (ram_ops a) true (at_pos (length es + 2) ino parent_ino) sb
      ≡ done (none, at_pos (length es + 2) ino parent_ino, sb)
  unfolding vtfs_iterate
  vtfs_iterate-past =
      let k = length es in
      let short = length-entries_of heap ino s.nodes_head in
      let n0 : ((k + 2) == 0) ≡ false = ground arith in
      let n1 : ((k + 2) == 1) ≡ false = ground arith in
      let off : (k + 2 + 2 ^ 64 - 2) % 2 ^ 64 ≡ k = omega arith in
      rw (n0, n1, off, iterate_dir-es k (omega arith), get_elem?-end es k refl) refl

  read_all-from :
      (n k : ℕ)
      → k + n ≡ length es
      → read_all (ram_ops a) n (at_pos (k + 2) ino parent_ino) sb
        ≡ done (map entry_of (drop k es), at_pos (length es + 2) ino parent_ino, sb)
  unfolding read_all
  read_all-from zero k h =
      rw (drop_end es k (omega arith))
        (ap (λ p. done ([], at_pos p ino parent_ino, sb)) (omega arith))
  read_all-from (suc n) k h =
      let (e, found, rest) = drop-get_elem? es k (omega arith) in
      let next : k + 3 ≡ suc k + 2 = omega arith in
      rw
        (
          vtfs_iterate-entry k e (omega arith) found,
          next,
          read_all-from n (suc k) (omega arith),
          rest,
        )
        refl

  read_all-start :
      (n : ℕ)
      → n ≡ length es
      → read_all (ram_ops a) (suc (suc n)) (at_pos 0 ino parent_ino) sb
        ≡ done (all_entries ino parent_ino es, at_pos (length es + 2) ino parent_ino, sb)
  unfolding read_all vtfs_iterate
  read_all-start n e = rw (read_all-from n 0 (omega arith)) refl

  -- On a well-formed RAM storage with fewer than 2 ^ 63 nodes, a caller who takes every entry and
  -- calls `vtfs_iterate` two times more than the directory has entries, from position 0, gets ".",
  -- ".." and then the entries of the storage, each once and in its order; a further call gives
  -- nothing and leaves the position.
  pub read_all-all_entries :
      (read_all (ram_ops a) (length es + 2) (at_pos 0 ino parent_ino) sb
        ≡ done (all_entries ino parent_ino es, at_pos (length es + 2) ino parent_ino, sb))
      × (vtfs_iterate (ram_ops a) true (at_pos (length es + 2) ino parent_ino) sb
          ≡ done (none, at_pos (length es + 2) ino parent_ino, sb))
  read_all-all_entries = (
    ap (λ n. read_all (ram_ops a) n (at_pos 0 ino parent_ino) sb) (omega arith)
        ∙ read_all-start (length es) refl,
    vtfs_iterate-past,
  )
