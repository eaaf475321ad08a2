-- ===== src/Ram/Safety/Keeps.antt =====
-- The bodies of the operations and the invariant, each from the law of the operation.
use os_course_lab.Base.{
  ℕ, ◌≡◌, refl, Option, none, some, List, inl, inr, Run, done, fault, Ensures, Ensures-mono,
}
use os_course_lab.Interface.{NodeType, NodeMeta, Result, ok, err}
use os_course_lab.Ram.State.{Ptr, Storage, Heap, Ram, Super, on_mounted, back}
use os_course_lab.Ram.Content.{Kernel, Transfer, IsDocumented, read_body, write_body}
use os_course_lab.Ram.WellFormed.{IsWellFormed, IsSafeMount, IsSafe}
use os_course_lab.Ram.Laws.Create.{Created, create_body-Created}
use os_course_lab.Ram.Laws.Unlink.{Unlinked, unlink_body-Unlinked}
use os_course_lab.Ram.Laws.Rmdir.{Rmdired, rmdir_body-Rmdired}
use os_course_lab.Ram.Laws.Link.{Linked, link_body-Linked}
use os_course_lab.Ram.Laws.Read.{ReadFrom, read_body-ReadFrom}
use os_course_lab.Ram.Laws.Update.{WroteTo, write_body-WroteTo}
use os_course_lab.Ram.Laws.Mount.{Initialised}
use os_course_lab.Ram.Safety.Requests.{
  after, keeping, iterate_dir, read, write, link, Allocates, IsProper,
}
use os_course_lab.Ram.Mount.{get_root_body}
use os_course_lab.Ram.Entries.{lookup_body, iterate_dir_body, create_body, unlink_body, rmdir_body}
use os_course_lab.Ram.Links.{link_body, count_mounted}
use os_course_lab.Ram.Laws.Lookup.{
  lookup_body-entry, get_root_body-inode, count_links_to_ino-links_of,
}
use os_course_lab.Ram.Laws.Iterate.{iterate_dir_body-entries_of}

module _ {ℓ} {A : Type ℓ} where
  pub on_mounted-IsSafe :
      (body : Ram → Run (Result A × Ram)) (o : Option Storage) (h : Heap)
      → IsSafeMount o h
      → ((s : Storage)
          → o ≡ some s
          → IsWellFormed (record { storage = s; heap = h })
          → Ensures (λ (_, r'). IsWellFormed r') (body (record { storage = s; heap = h })))
      → Ensures IsSafe (after (on_mounted body o h))
  on_mounted-IsSafe body none h safe keeps = safe
  on_mounted-IsSafe body (some s) h safe keeps =
      back_safe (body (record { storage = s; heap = h })) (keeps s refl safe)
    where
      back_safe :
          (m : Run (Result A × Ram))
          → Ensures (λ (_, r'). IsWellFormed r') m
          → Ensures IsSafe (after (back m))
      back_safe (done (answer, r')) w = w
      back_safe fault w = w

-- Each law keeps the storage well formed, refusals included.
module _ (r : Ram) (w : IsWellFormed r) where
  Created-IsWellFormed :
      (q a : Ptr) (t : NodeType) (mode parent : ℕ) (name : List ℕ)
      → (answer : Result NodeMeta × Ram) → Created q a t mode parent name r answer
      → IsWellFormed answer.1
  Created-IsWellFormed q a t mode parent name (ok meta, r') c = c.0
  Created-IsWellFormed q a t mode parent name (err e, r') c = c.0

  Unlinked-IsWellFormed :
      (parent : ℕ) (name : List ℕ) (answer : Result (Unit {0}) × Ram)
      → Unlinked parent name r answer
      → IsWellFormed answer.1
  Unlinked-IsWellFormed parent name (ok _, r') c = c.1
  Unlinked-IsWellFormed parent name (err e, r') c = rw c.0 w

  Rmdired-IsWellFormed :
      (parent : ℕ) (name : List ℕ) (answer : Result (Unit {0}) × Ram)
      → Rmdired parent name r answer
      → IsWellFormed answer.1
  Rmdired-IsWellFormed parent name (ok _, r') c = c.1
  Rmdired-IsWellFormed parent name (err e, r') c = rw c.0 w

  Linked-IsWellFormed :
      (a : Ptr) (target parent : ℕ) (name : List ℕ) (answer : Result (Unit {0}) × Ram)
      → Linked a target parent name r answer
      → IsWellFormed answer.1
  Linked-IsWellFormed a target parent name (ok _, r') c = c.1
  Linked-IsWellFormed a target parent name (err e, r') c = rw c.0 w

  ReadFrom-IsWellFormed :
      (k : Kernel) (ino len offset : ℕ) (answer : Result Transfer × Ram)
      → ReadFrom k ino len offset r answer
      → IsWellFormed answer.1
  ReadFrom-IsWellFormed k ino len offset (t, r') c = rw c.0 w

  WroteTo-IsWellFormed :
      (k : Kernel) (ino : ℕ) (user : List ℕ) (len offset : ℕ) (answer : Result ℕ × Ram)
      → WroteTo k ino user len offset r answer
      → IsWellFormed answer.1
  WroteTo-IsWellFormed k ino user len offset (ok _, r') c = c.2
  WroteTo-IsWellFormed k ino user len offset (err e, r') (inl c) = rw c.2 w
  WroteTo-IsWellFormed k ino user len offset (err e, r') (inr c) = c.2

  pub create_body_keeps :
      (q a : Ptr) (t : NodeType) (mode parent : ℕ) (name : List ℕ)
      → Allocates q a name r
      → Ensures (λ (_, r'). IsWellFormed r') (create_body q a t mode parent name r)
  create_body_keeps q a t mode parent name h =
      Ensures-mono (Created q a t mode parent name r) (λ (_, r'). IsWellFormed r')
        (create_body q a t mode parent name r) (Created-IsWellFormed q a t mode parent name)
        (create_body-Created r w q a parent name h.short h.room h.unused h.new_addr t mode)

  pub unlink_body_keeps :
      (parent : ℕ) (name : List ℕ)
      → Ensures (λ (_, r'). IsWellFormed r') (unlink_body parent name r)
  unlink_body_keeps parent name =
      Ensures-mono (Unlinked parent name r) (λ (_, r'). IsWellFormed r') (unlink_body parent name r)
        (Unlinked-IsWellFormed parent name) (unlink_body-Unlinked r parent name w)

  pub rmdir_body_keeps :
      (parent : ℕ) (name : List ℕ) → Ensures (λ (_, r'). IsWellFormed r') (rmdir_body parent name r)
  rmdir_body_keeps parent name =
      Ensures-mono (Rmdired parent name r) (λ (_, r'). IsWellFormed r') (rmdir_body parent name r)
        (Rmdired-IsWellFormed parent name) (rmdir_body-Rmdired r parent name w)

  pub link_body_keeps :
      (a : Ptr) (target parent : ℕ) (name : List ℕ)
      → IsProper (link a target parent name) r
      → Ensures (λ (_, r'). IsWellFormed r') (link_body a target parent name r)
  link_body_keeps a target parent name h =
      Ensures-mono (Linked a target parent name r) (λ (_, r'). IsWellFormed r')
        (link_body a target parent name r) (Linked-IsWellFormed a target parent name)
        (link_body-Linked r w a target parent name h.1 h.2 h.0)

  pub read_body_keeps :
      (k : Kernel) (ino len offset : ℕ)
      → IsProper (read ino len offset) r
      → Ensures (λ (_, r'). IsWellFormed r') (read_body k ino len offset r)
  read_body_keeps k ino len offset h =
      Ensures-mono (ReadFrom k ino len offset r) (λ (_, r'). IsWellFormed r')
        (read_body k ino len offset r) (ReadFrom-IsWellFormed k ino len offset)
        (read_body-ReadFrom k r w ino len offset h.0 h.1)

  pub write_body_keeps :
      (k : Kernel)
      → IsDocumented k
      → (ino : ℕ) (user : List ℕ) (len offset : ℕ) → IsProper (write ino user len offset) r
      → Ensures (λ (_, r'). IsWellFormed r') (write_body k ino user len offset r)
  write_body_keeps k ok_k ino user len offset h =
      Ensures-mono (WroteTo k ino user len offset r) (λ (_, r'). IsWellFormed r')
        (write_body k ino user len offset r) (WroteTo-IsWellFormed k ino user len offset)
        (write_body-WroteTo k ok_k r w ino user len offset h.0 h.1)

  pub get_root_body_keeps : Ensures (λ (_, r'). IsWellFormed r') (get_root_body r)
  get_root_body_keeps = rw (get_root_body-inode r w) w

  pub lookup_body_keeps :
      (parent : ℕ) (name : List ℕ)
      → Ensures (λ (_, r'). IsWellFormed r') (lookup_body parent name r)
  lookup_body_keeps parent name = rw (lookup_body-entry r parent name w) w

  pub iterate_dir_body_keeps :
      (dir_ino offset : ℕ)
      → IsProper (iterate_dir dir_ino offset) r
      → Ensures (λ (_, r'). IsWellFormed r') (iterate_dir_body dir_ino offset r)
  iterate_dir_body_keeps dir_ino offset small =
      rw (iterate_dir_body-entries_of r dir_ino offset w small) w

pub after_answer :
    {A : Type 0} (m : Run (A × Super)) → Ensures (λ (_, sb). IsSafe sb) m → Ensures IsSafe (after m)
after_answer (done (answer, sb)) safe = safe
after_answer fault safe = safe

pub Initialised-IsSafe :
    (s a q : Ptr) (sb : Super) (answer : Result (Unit {0}) × Super)
    → IsSafe sb
    → Initialised s a q sb answer
    → IsSafe answer.1
Initialised-IsSafe s a q sb (ok _, sb') safe c = rw c.2 c.3
Initialised-IsSafe s a q sb (err e, sb') safe c = rw c.2 safe

pub count_mounted-IsSafe :
    (ino : ℕ) (o : Option Storage) (h : Heap)
    → IsSafeMount o h
    → Ensures IsSafe (keeping (record { s_fs_info = o; heap = h }) (count_mounted ino o h))
count_mounted-IsSafe ino none h safe = safe
count_mounted-IsSafe ino (some s) h safe =
    rw (count_links_to_ino-links_of (record { storage = s; heap = h }) ino safe) safe
