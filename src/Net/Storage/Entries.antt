-- ===== src/Net/Storage/Entries.antt =====
-- The operations of vtfs_net_impl.c on names. A name that is NULL is none.
use os_course_lab.Base.{
  ℕ, ◌+◌, ◌%◌, ◌^◌, Bool, true, false, Option, none, some, List, [], ◌∷◌, Run, done, ◌>>=◌, ◌==◌,
  ltb, if◌then◌else◌, bit_and,
}
use os_course_lab.Base.Text.{codes}
use os_course_lab.Interface.{NodeMeta, Dirent}
use os_course_lab.Net.Decode.{load_le, parse_dirent}
use os_course_lab.Net.Http.Request.{Arg}
use os_course_lab.Net.Http.Response.{Response, as_int}
use os_course_lab.Net.Storage.{
  Host, Reply, failed_with, wrote, einval_code, response_memory, unsigned_text, encode_name,
  plain_reply, meta_reply, or_enoent,
}

-- The arguments of the requests, with the texts of their values
abbrev pub parent_name : (parent : ℕ) → (encoded : List ℕ) → List Arg
parent_name parent encoded =
    record { name = codes "parent"; text = unsigned_text parent }
    ∷ record { name = codes "name"; text = encoded }
    ∷ []

abbrev pub parent_name_mode : (parent mode : ℕ) → (encoded : List ℕ) → List Arg
parent_name_mode parent mode encoded =
    record { name = codes "parent"; text = unsigned_text parent }
    ∷ record { name = codes "name"; text = encoded }
    ∷ record { name = codes "mode"; text = unsigned_text mode }
    ∷ []

abbrev pub dir_offset : (dir_ino offset : ℕ) → List Arg
dir_offset dir_ino offset =
    record { name = codes "dir_ino"; text = unsigned_text dir_ino }
    ∷ record { name = codes "offset"; text = unsigned_text offset }
    ∷ []

abbrev pub target_parent_name : (target parent : ℕ) → (encoded : List ℕ) → List Arg
target_parent_name target parent encoded =
    record { name = codes "target_ino"; text = unsigned_text target }
    ∷ record { name = codes "parent"; text = unsigned_text parent }
    ∷ record { name = codes "name"; text = encoded }
    ∷ []

abbrev pub only_ino : (ino : ℕ) → List Arg
only_ino ino = record { name = codes "ino"; text = unsigned_text ino } ∷ []

module _ {W : Type 0} (host : Host W) where
  unfoldable pub lookup :
      (sb : Option (List ℕ))
      → (parent : ℕ) → (name : Option (List ℕ)) → W
      → Run (Reply NodeMeta × W)
  lookup none parent name w = done (failed_with einval_code, w)
  lookup (some token) parent none w = done (failed_with einval_code, w)
  lookup (some token) parent (some name) w = do
    encoded ← encode_name name
    answer ← host.call token (codes "lookup") 1024 (parent_name parent encoded) w
    meta_reply or_enoent answer

  -- The entry and the new `*offset`
  abbrev pub dirent_reply : (offset : ℕ) → Response × W → Run (Reply (Dirent × ℕ) × W)
  dirent_reply offset (r, w) =
      if r.return_value == 0
      then (do
        memory ← response_memory 1024 r.bytes
        entry ← parse_dirent memory
        done (wrote (entry, (offset + 1) % 2 ^ 64), w))
      else done (failed_with (or_enoent r.return_value), w)

  -- `has_out` says that `out` is not NULL.
  unfoldable pub iterate_dir :
      (sb : Option (List ℕ))
      → (dir_ino : ℕ) → (offset : Option ℕ) → (has_out : Bool) → W
      → Run (Reply (Dirent × ℕ) × W)
  iterate_dir none dir_ino offset has_out w = done (failed_with einval_code, w)
  iterate_dir (some token) dir_ino none has_out w = done (failed_with einval_code, w)
  iterate_dir (some token) dir_ino (some offset) false w = done (failed_with einval_code, w)
  iterate_dir (some token) dir_ino (some offset) true w = do
    answer ← host.call token (codes "iterate_dir") 1024 (dir_offset dir_ino offset) w
    dirent_reply offset answer

  -- vtfs_net_storage_create_file and vtfs_net_storage_create_dir, which differ in the method.
  abbrev pub create_node :
      (method : List ℕ)
      → (sb : Option (List ℕ)) → (parent : ℕ) → (name : Option (List ℕ)) → (mode : ℕ) → W
      → Run (Reply NodeMeta × W)
  create_node method none parent name mode w = done (failed_with einval_code, w)
  create_node method (some token) parent none mode w = done (failed_with einval_code, w)
  create_node method (some token) parent (some name) mode w = do
    encoded ← encode_name name
    answer ← host.call token method 1024 (parent_name_mode parent (bit_and mode 0o777) encoded) w
    meta_reply as_int answer

  unfoldable pub create_file :
      (sb : Option (List ℕ))
      → (parent : ℕ) → (name : Option (List ℕ)) → (mode : ℕ) → W
      → Run (Reply NodeMeta × W)
  create_file = create_node (codes "create_file")

  unfoldable pub create_dir :
      (sb : Option (List ℕ))
      → (parent : ℕ) → (name : Option (List ℕ)) → (mode : ℕ) → W
      → Run (Reply NodeMeta × W)
  create_dir = create_node (codes "mkdir")

  -- vtfs_net_storage_unlink and vtfs_net_storage_rmdir, which differ in the method.
  abbrev pub remove_name :
      (method : List ℕ)
      → (sb : Option (List ℕ)) → (parent : ℕ) → (name : Option (List ℕ)) → W
      → Run (ℕ × W)
  remove_name method none parent name w = done (einval_code, w)
  remove_name method (some token) parent none w = done (einval_code, w)
  remove_name method (some token) parent (some name) w = do
    encoded ← encode_name name
    answer ← host.call token method 1024 (parent_name parent encoded) w
    done (plain_reply answer)

  unfoldable pub unlink :
      (sb : Option (List ℕ)) → (parent : ℕ) → (name : Option (List ℕ)) → W → Run (ℕ × W)
  unlink = remove_name (codes "unlink")

  unfoldable pub rmdir :
      (sb : Option (List ℕ)) → (parent : ℕ) → (name : Option (List ℕ)) → W → Run (ℕ × W)
  rmdir = remove_name (codes "rmdir")

  unfoldable pub link :
      (sb : Option (List ℕ)) → (target_ino parent : ℕ) → (name : Option (List ℕ)) → W → Run (ℕ × W)
  link none target_ino parent name w = done (einval_code, w)
  link (some token) target_ino parent none w = done (einval_code, w)
  link (some token) target_ino parent (some name) w = do
    encoded ← encode_name name
    answer ← host.call token (codes "link") 1024 (target_parent_name target_ino parent encoded) w
    done (plain_reply answer)

  abbrev pub count_reply : Response × W → Run (ℕ × W)
  count_reply (r, w) =
      if r.return_value == 0
      then if ltb r.data_len 4
        then done (0, w)
        else (do memory ← response_memory 256 r.bytes; count ← load_le memory 0 4; done (count, w))
      else done (0, w)

  unfoldable pub count_links : (sb : Option (List ℕ)) → (ino : ℕ) → W → Run (ℕ × W)
  count_links none ino w = done (0, w)
  count_links (some token) ino w = do
    answer ← host.call token (codes "count_links") 256 (only_ino ino) w
    count_reply answer
