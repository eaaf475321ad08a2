-- ===== src/Ram/Safety/Requests.antt =====
-- The calls of the operations table, and what the kernel guarantees of them.
use os_course_lab.Base.{
  ℕ, ◌+◌, ◌^◌, ◌<◌, ◌≤◌, ◌≡◌, Option, none, some, List, false, Run, done, fault, length,
}
use os_course_lab.Interface.{name_max}
use os_course_lab.Ram.State.{Ptr, Payload, Storage, Heap, Ram, Super, on_storage}
use os_course_lab.Ram.Mount
use os_course_lab.Ram.Mount.{storage_init, storage_shutdown}
use os_course_lab.Ram.Entries
use os_course_lab.Ram.Links
use os_course_lab.Ram.Content
use os_course_lab.Ram.Content.{Kernel}
use os_course_lab.Ram.WellFormed.Lists.{has_addr}
use os_course_lab.Ram.View.{inode}

-- A call of the operations table, with what the allocations in it return.
pub data Request : Type 0 where
  init : (s a q : Ptr) → Request
  shutdown : Request
  get_root : Request
  lookup : (parent : ℕ) → List ℕ → Request
  iterate_dir : (dir_ino offset : ℕ) → Request
  create_file : (q a : Ptr) → (parent : ℕ) → List ℕ → (mode : ℕ) → Request
  mkdir : (q a : Ptr) → (parent : ℕ) → List ℕ → (mode : ℕ) → Request
  unlink : (parent : ℕ) → List ℕ → Request
  rmdir : (parent : ℕ) → List ℕ → Request
  read : (ino len offset : ℕ) → Request
  write : (ino : ℕ) → List ℕ → (len offset : ℕ) → Request
  link : (a : Ptr) → (target parent : ℕ) → List ℕ → Request
  count_links : (ino : ℕ) → Request

abbrev pub after {ℓ} : {A : Type ℓ} → Run (A × Super) → Run Super
after (done (answer, sb)) = done sb
after fault = fault

-- A call that answers a number alone, and leaves the state.
abbrev pub keeping {ℓ} : {A : Type ℓ} → Super → Run A → Run Super
keeping sb (done answer) = done sb
keeping sb fault = fault

module _ (k : Kernel) where
  -- The state that the call leaves.
  unfoldable pub perform : Request → Super → Run Super
  unfolding on_storage Mount.get_root Entries.lookup Entries.iterate_dir Entries.create_file
      Entries.mkdir Entries.unlink Entries.rmdir Content.read Content.write Links.link
      Links.count_links
  perform (init s a q) sb = after (storage_init s a q sb)
  perform shutdown sb = storage_shutdown sb
  perform get_root sb = after (Mount.get_root sb)
  perform (lookup parent name) sb = after (Entries.lookup parent name sb)
  perform (iterate_dir dir_ino offset) sb = after (Entries.iterate_dir dir_ino offset sb)
  perform (create_file q a parent name mode) sb =
      after (Entries.create_file q a parent name mode sb)
  perform (mkdir q a parent name mode) sb = after (Entries.mkdir q a parent name mode sb)
  perform (unlink parent name) sb = after (Entries.unlink parent name sb)
  perform (rmdir parent name) sb = after (Entries.rmdir parent name sb)
  perform (read ino len offset) sb = after (Content.read k ino len offset sb)
  perform (write ino user len offset) sb = after (Content.write k ino user len offset sb)
  perform (link a target parent name) sb = after (Links.link a target parent name sb)
  perform (count_links ino) sb = keeping sb (Links.count_links ino sb)

-- An allocation returns memory that is not in use: no payload and no node stands there. A name is
-- within NAME_MAX, and the counters have not run out.
pub record Allocates (q a : Ptr) (name : List ℕ) (r : Ram) : Type 0 where
  pub unused : r.heap q ≡ none
  pub new_addr : has_addr a r.nodes_head ≡ false
  pub short : length name ≤ name_max
  pub room : r.next_ino + 1 < 2 ^ 64

-- What the kernel guarantees of a call on a mounted storage.
abbrev pub IsProper : Request → Ram → Type 0
IsProper (create_file q a parent name mode) r = Allocates q a name r
IsProper (mkdir q a parent name mode) r = Allocates q a name r
IsProper (iterate_dir dir_ino offset) r = length r.nodes_head < 2 ^ 64
IsProper (read ino len offset) r = (offset < 2 ^ 64) × (len < 2 ^ 64)
IsProper (write ino user len offset) r = (offset < 2 ^ 64) × (len < 2 ^ 63)
IsProper (link a target parent name) r =
    (has_addr a r.nodes_head ≡ false)
    × (length name ≤ name_max)
    × ((p : Payload) → inode r target ≡ some p → p.ref_count + 1 < 2 ^ 32)
IsProper _ r = Unit

-- A superblock is mounted once at a time.
abbrev pub IsAllowedMount : Request → Option Storage → Heap → Type 0
IsAllowedMount (init s a q) o h = o ≡ none
IsAllowedMount req none h = Unit
IsAllowedMount req (some s) h = IsProper req (record { storage = s; heap = h })

abbrev pub IsAllowed : Request → Super → Type 0
IsAllowed req sb = IsAllowedMount req sb.s_fs_info sb.heap
