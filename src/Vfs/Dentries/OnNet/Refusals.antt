-- ===== src/Vfs/Dentries/OnNet/Refusals.antt =====
-- What the kernel is told where the server refuses.
use os_course_lab.Base.{
  ℕ, ◌^◌, ◌≤◌, ◌<◌, ◌≡◌, ◌≢◌, refl, false, Option, some, List, done, ◌==◌, length, bit_and, arith,
}
use os_course_lab.Base.Text.{codes}
use os_course_lab.Net.Base64.Laws.{AllBytes}
use os_course_lab.Net.Encode.{encode}
use os_course_lab.Net.Http.Response.{Response, as_int}
use os_course_lab.Net.Storage.{Host}
use os_course_lab.Net.Storage.Entries.{parent_name_mode, create_file, create_dir}
use os_course_lab.Net.Storage.Requests.{encode_name-fits}
use os_course_lab.Vfs.Dentries.{Ptr, null, Inode, load_inode}
use os_course_lab.Vfs.Dentries.Names.{nothing_placed, vtfs_mkdir, vtfs_create}
use os_course_lab.Vfs.Dentries.OnNet.{net_ops}

as_int_small : (v : ℕ) → v < 2 ^ 31 → as_int v ≡ v
as_int_small v h = ground arith

module _ {W : Type 0} (host : Host W) (token : List ℕ) (q parent : Ptr) (dir : Inode)
    (inodes : Ptr → Option Inode) (name : List ℕ) (mode : ℕ) where
  -- Where the server refuses a creation with a positive code below 2 ^ 31, for a name of at most
  -- 255 bytes in a directory in memory, `vtfs_mkdir` and `vtfs_create` place no inode and hand the
  -- code on without a minus sign, `vtfs_mkdir` as the argument of ERR_PTR.
  pub code-positive :
      (r₁ r₂ : Response) (v : ℕ) (w w₁ w₂ : W)
      → parent ≢ null
      → inodes parent ≡ some dir
      → AllBytes name
      → length name ≤ 255
      → 0 < v
      → v < 2 ^ 31
      → r₁.return_value ≡ v
      → r₂.return_value ≡ v
      → host.call token
          (codes "mkdir")
          1024
          (parent_name_mode dir.i_ino (bit_and mode 0o777) (encode name))
          w
        ≡ done (r₁, w₁)
      → host.call token
          (codes "create_file")
          1024
          (parent_name_mode dir.i_ino (bit_and mode 0o777) (encode name))
          w
        ≡ done (r₂, w₂)
      → (vtfs_mkdir
            (net_ops host)
            q
            parent
            name
            mode
            (record { inodes = inodes; storage = (some token, w) })
          ≡ done (nothing_placed v inodes (some token, w₁)))
        × (vtfs_create
              (net_ops host)
              q
              parent
              name
              mode
              (record { inodes = inodes; storage = (some token, w) })
            ≡ done (nothing_placed v inodes (some token, w₂)))
  unfolding vtfs_mkdir vtfs_create create_dir create_file load_inode
  code-positive r₁ r₂ v w w₁ w₂ nn at all short low high e₁ e₂ c₁ c₂ =
      let here : (parent == null) ≡ false = ground arith in
      let refused : (v == 0) ≡ false = ground arith in
      let same = as_int_small v high in
      let fits = encode_name-fits name all short in
      (
        rw (here, at, fits, c₁, e₁, refused, same, refused) refl,
        rw (here, at, fits, c₂, e₂, refused, same, refused) refl,
      )
