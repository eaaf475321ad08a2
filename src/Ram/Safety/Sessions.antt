-- ===== src/Ram/Safety/Sessions.antt =====
-- Sessions: any number of calls, one after the other, from the superblock before the first mount.
use os_course_lab.Base.{subst, ◌≡◌, refl, none, Run, done, fault, Ensures}
use os_course_lab.Ram.State.{Ptr, Super}
use os_course_lab.Ram.Content.{Kernel, IsDocumented}
use os_course_lab.Ram.WellFormed.{IsSafe}
use os_course_lab.Ram.Mount.{storage_shutdown}
use os_course_lab.Ram.Laws.Mount.{storage_shutdown_frees}
use os_course_lab.Ram.Safety.Requests.{Request, perform, IsAllowed}
use os_course_lab.Ram.Safety.Calls.{perform-IsSafe}

abbrev pub unmounted : Super
unmounted = record { s_fs_info = none; heap = λ q. none }

-- The states that allowed calls lead to, from the superblock before the first mount.
pub data Reach (k : Kernel) : Super → Type 0 where
  fresh : Reach k unmounted
  call :
      {sb sb' : Super}
      → Reach k sb
      → (req : Request) → IsAllowed req sb
      → perform k req sb ≡ done sb'
      → Reach k sb'

module _ (k : Kernel) (ok_k : IsDocumented k) where
  -- Every state that a session of allowed calls reaches is safe.
  pub Reach-IsSafe : (sb : Super) → Reach k sb → IsSafe sb
  Reach-IsSafe _ fresh = λ q. refl
  Reach-IsSafe sb' (call {sb} reached req allowed e) =
      subst (Ensures IsSafe) e (perform-IsSafe k ok_k sb (Reach-IsSafe sb reached) req allowed)

  -- With a documented kernel, in any state that allowed calls reach from the superblock before the
  -- first mount, a further allowed call ends without a fault in such a state again, and unmounting
  -- after it ends without a fault too, with nothing mounted and no payload left in memory.
  pub Reach-ends :
      (sb : Super)
      → Reach k sb
      → (req : Request) → IsAllowed req sb
      → Ensures
          (λ sb'.
            Reach k sb'
            × Ensures
                (λ sb''. (sb''.s_fs_info ≡ none) × ((q : Ptr) → sb''.heap q ≡ none))
                (storage_shutdown sb'))
          (perform k req sb)
  Reach-ends sb reached req allowed =
      ended (perform k req sb) refl (perform-IsSafe k ok_k sb (Reach-IsSafe sb reached) req allowed)
    where
      ended :
          (m : Run Super)
          → perform k req sb ≡ m
          → Ensures IsSafe m
          → Ensures
              (λ sb'.
                Reach k sb'
                × Ensures
                    (λ sb''. (sb''.s_fs_info ≡ none) × ((q : Ptr) → sb''.heap q ≡ none))
                    (storage_shutdown sb'))
              m
      ended (done sb') e safe = (call reached req allowed e, storage_shutdown_frees sb' safe)
      ended fault e safe = safe
