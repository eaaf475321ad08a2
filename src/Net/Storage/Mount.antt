-- ===== src/Net/Storage/Mount.antt =====
-- `vtfs_net_storage_init`, `vtfs_net_storage_shutdown` and `vtfs_net_storage_get_root`.
use os_course_lab.Base.{
  ℕ, Bool, true, false, Option, none, some, List, [], Run, done, ◌>>=◌, ◌==◌, leb, if◌then◌else◌,
  length, take,
}
use os_course_lab.Base.Text.{codes}
use os_course_lab.Interface.{NodeMeta}
use os_course_lab.Net.Http.Response.{Response, as_int}
use os_course_lab.Net.Storage.{Host, Reply, failed_with, einval_code, enomem_code, meta_reply}

-- MAX_TOKEN_LEN, and sizeof(struct vtfs_net_storage)
abbrev pub max_token_len : ℕ
max_token_len = 256

-- What `init` leaves: its return value and `sb->s_fs_info`.
pub record Mounted : Type 0 where
  pub code : ℕ
  pub s_fs_info : Option (List ℕ)

abbrev pub or_remount : Option (List ℕ) → List ℕ
or_remount none = codes "REMOUNT"
or_remount (some token) = token

module _ {W : Type 0} (host : Host W) where
  -- From the server's answer on.
  abbrev pub init_answered : (token : List ℕ) → Response × W → Mounted × W
  init_answered token (r, w) =
      if r.return_value == 0
      then (record { code = 0; s_fs_info = some token }, w)
      else if r.return_value == 17
      then (record { code = 0; s_fs_info = some token }, w)
      else (record { code = as_int r.return_value; s_fs_info = none }, host.kfree w)

  -- From the answer of kzalloc on; `sb` is `s_fs_info` before the call.
  abbrev pub init_allocated :
      (token : List ℕ) → (sb : Option (List ℕ)) → Bool × W → Run (Mounted × W)
  init_allocated token sb (false, w) = done (record { code = enomem_code; s_fs_info = sb }, w)
  init_allocated token sb (true, w) =
      if leb max_token_len (length token)
      then done (record { code = einval_code; s_fs_info = sb }, host.kfree w)
      else (do
        answer ← host.call (take 255 token) (codes "init") 1024 [] w
        done (init_answered (take 255 token) answer))

  unfoldable pub init : (token sb : Option (List ℕ)) → W → Run (Mounted × W)
  init token sb w = init_allocated (or_remount token) sb (host.kzalloc max_token_len w)

  -- The storage of the superblock afterwards.
  unfoldable pub shutdown : (sb : Option (List ℕ)) → W → Option (List ℕ) × W
  shutdown none w = (none, w)
  shutdown (some token) w = (none, host.kfree w)

  unfoldable pub get_root : (sb : Option (List ℕ)) → W → Run (Reply NodeMeta × W)
  get_root none w = done (failed_with einval_code, w)
  get_root (some token) w = do
    answer ← host.call token (codes "get_root") 1024 [] w
    meta_reply as_int answer
