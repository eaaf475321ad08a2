-- ===== src/Ram/Safety/Calls.antt =====
-- The calls of the operations table, one at a time.
use os_course_lab.Base.{◌≡◌, none, some, subst, sym, bit_and, bit_or, Run, Ensures, Ensures-mono}
use os_course_lab.Interface.{dir, file, Result}
use os_course_lab.Ram.State.{Ptr, Storage, Ram, Super, on_storage, on_mounted}
use os_course_lab.Ram.Mount.{storage_init, storage_shutdown, get_root_body, s_ifdir}
use os_course_lab.Ram.Entries.{
  s_ifreg, lookup_body, iterate_dir_body, create_body, unlink_body, rmdir_body,
}
use os_course_lab.Ram.Links.{link_body}
use os_course_lab.Ram.Content.{Kernel, IsDocumented, read_body, write_body}
use os_course_lab.Ram.WellFormed.{IsWellFormed, IsSafeMount, IsSafe}
use os_course_lab.Ram.Laws.Mount.{Initialised, storage_init-Initialised, storage_shutdown_frees}
use os_course_lab.Ram.Safety.Requests.{
  Request, init, shutdown, get_root, lookup, iterate_dir, create_file, mkdir, unlink, rmdir, read,
  write, link, count_links, after, perform, IsAllowedMount, IsAllowed,
}
use os_course_lab.Ram.Safety.Keeps.{
  on_mounted-IsSafe, after_answer, Initialised-IsSafe, create_body_keeps, unlink_body_keeps,
  rmdir_body_keeps, link_body_keeps, read_body_keeps, write_body_keeps, get_root_body_keeps,
  lookup_body_keeps, iterate_dir_body_keeps, count_mounted-IsSafe,
}

module _ (k : Kernel) (ok_k : IsDocumented k) (sb : Super) (safe : IsSafe sb) where
  abbrev on : Storage → Ram
  on s = record { storage = s; heap = sb.heap }

  -- A call on the mounted storage, from the law of its body.
  by_law :
      {A : Type 0} (req : Request) (body : Ram → Run (Result A × Ram))
      → ((s : Storage)
          → IsAllowedMount req (some s) sb.heap
          → IsWellFormed (record { storage = s; heap = sb.heap })
          → Ensures (λ (_, r'). IsWellFormed r') (body (record { storage = s; heap = sb.heap })))
      → IsAllowed req sb
      → Ensures IsSafe (after (on_mounted body sb.s_fs_info sb.heap))
  by_law req body law allowed =
      on_mounted-IsSafe body sb.s_fs_info sb.heap safe
        λ s e w. law s (subst (λ o. IsAllowedMount req o sb.heap) e allowed) w

  -- With a kernel whose memory functions behave as documented, every call of the operations table
  -- that the kernel may make (it mounts only where nothing is mounted, allocations return memory
  -- that is not in use, names are within NAME_MAX, offsets and lengths are 64-bit words and the
  -- lengths of writes below 2 ^ 63, there are fewer than 2 ^ 64 nodes, the inode and link counters
  -- have not run out) ends without a memory fault from a safe state, and leaves a safe state: the
  -- mounted storage is well formed, or nothing is mounted and no payload is in memory.
  pub perform-IsSafe : (req : Request) → IsAllowed req sb → Ensures IsSafe (perform k req sb)
  unfolding perform on_storage
  perform-IsSafe (init s a q) allowed =
      let clean : (q' : Ptr) → sb.heap q' ≡ none =
        subst (λ o. IsSafeMount o sb.heap) allowed safe in
      after_answer (storage_init s a q sb) (
        Ensures-mono (Initialised s a q sb) (λ (_, sb'). IsSafe sb') (storage_init s a q sb)
          (λ answer c. Initialised-IsSafe s a q sb answer safe c)
          (storage_init-Initialised s a q sb clean))
  perform-IsSafe shutdown allowed =
      Ensures-mono (λ sb'. (sb'.s_fs_info ≡ none) × ((q : Ptr) → sb'.heap q ≡ none)) IsSafe
        (storage_shutdown sb)
        (λ sb' (unmounted, clean). subst (λ o. IsSafeMount o sb'.heap) (sym unmounted) clean)
        (storage_shutdown_frees sb safe)
  perform-IsSafe get_root allowed =
      by_law get_root get_root_body (λ s h w. get_root_body_keeps (on s) w) allowed
  perform-IsSafe (lookup parent name) allowed =
      by_law (lookup parent name) (lookup_body parent name)
        (λ s h w. lookup_body_keeps (on s) w parent name) allowed
  perform-IsSafe (iterate_dir dir_ino offset) allowed =
      by_law (iterate_dir dir_ino offset) (iterate_dir_body dir_ino offset)
        (λ s h w. iterate_dir_body_keeps (on s) w dir_ino offset h) allowed
  perform-IsSafe (create_file q a parent name mode) allowed =
      let bits = bit_or s_ifreg (bit_and mode 0o777) in
      by_law (create_file q a parent name mode) (create_body q a file bits parent name)
        (λ s h w. create_body_keeps (on s) w q a file bits parent name h) allowed
  perform-IsSafe (mkdir q a parent name mode) allowed =
      let bits = bit_or s_ifdir (bit_and mode 0o777) in
      by_law (mkdir q a parent name mode) (create_body q a dir bits parent name)
        (λ s h w. create_body_keeps (on s) w q a dir bits parent name h) allowed
  perform-IsSafe (unlink parent name) allowed =
      by_law (unlink parent name) (unlink_body parent name)
        (λ s h w. unlink_body_keeps (on s) w parent name) allowed
  perform-IsSafe (rmdir parent name) allowed =
      by_law (rmdir parent name) (rmdir_body parent name)
        (λ s h w. rmdir_body_keeps (on s) w parent name) allowed
  perform-IsSafe (read ino len offset) allowed =
      by_law (read ino len offset) (read_body k ino len offset)
        (λ s h w. read_body_keeps (on s) w k ino len offset h) allowed
  perform-IsSafe (write ino user len offset) allowed =
      by_law (write ino user len offset) (write_body k ino user len offset)
        (λ s h w. write_body_keeps (on s) w k ok_k ino user len offset h) allowed
  perform-IsSafe (link a target parent name) allowed =
      by_law (link a target parent name) (link_body a target parent name)
        (λ s h w. link_body_keeps (on s) w a target parent name h) allowed
  perform-IsSafe (count_links ino) allowed = count_mounted-IsSafe ino sb.s_fs_info sb.heap safe
