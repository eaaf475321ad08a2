-- ===== src/Net/Storage/OnHttp.antt =====
-- The operations of the server's storage on `vtfs_http_call`.
use os_course_lab.Base.{ℕ, Bool, true, false, Option, none, some, List}
use os_course_lab.Net.Http.Sockets.{Kernel}
use os_course_lab.Net.Http.Call.{vtfs_http_call}
use os_course_lab.Net.Storage.{Host}

-- The kernel's access to the user's memory, as in `Host`.
pub record UserMemory (W : Type 0) : Type 0 where
  pub copy_to_user : List ℕ → W → ℕ × W
  pub copy_from_user : (user : List ℕ) → (at n : ℕ) → W → (List ℕ × ℕ) × W

module _ {W : Type 0} where
  -- The contents of a block are overwritten at once.
  abbrev pub is_allocated : Option (List ℕ) × W → Bool × W
  is_allocated (none, w) = (false, w)
  is_allocated (some memory, w) = (true, w)

  abbrev pub over_http : Kernel W → UserMemory W → Host W
  over_http kernel user = record {
    call = vtfs_http_call kernel;
    kzalloc = kernel.kzalloc;
    kmalloc = λ size w. is_allocated (kernel.kmalloc size w);
    kfree = kernel.kfree;
    copy_to_user = user.copy_to_user;
    copy_from_user = user.copy_from_user;
  }
