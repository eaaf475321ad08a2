-- ===== src/Vfs/Dentries/Rootless.antt =====
-- `vtfs_fill_super` where the root gets no dentry.
use os_course_lab.Base.{ℕ, ◌≡◌, ◌≢◌, refl, true, false, Option, List, done, fault, ◌==◌, arith}
use os_course_lab.Interface.{NodeMeta}
use os_course_lab.Net.Storage.{wrote}
use os_course_lab.Vfs.Dentries.{Ptr, null, Inode, NameOps, load_inode, put_inode}
use os_course_lab.Vfs.Dentries.Mount.{iput, vtfs_fill_super}

-- Where the storage is initialised, its root is known and an inode is allocated, but d_make_root
-- makes no dentry and drops the inode as documented, `vtfs_fill_super` drops the inode again,
-- which is a fault.
pub vtfs_fill_super-fault :
    {S : Type 0} (ops : NameOps S) (q : Ptr) (token : Option (List ℕ)) (inodes : Ptr → Option Inode)
    (s s₁ s₂ : S) (meta : NodeMeta)
    → q ≢ null
    → ops.init token s ≡ done (0, s₁)
    → ops.get_root s₁ ≡ done (wrote meta, s₂)
    → vtfs_fill_super ops q false token (record { inodes = inodes; storage = s }) ≡ fault
unfolding vtfs_fill_super iput load_inode put_inode
vtfs_fill_super-fault ops q token inodes s s₁ s₂ meta nn e₁ e₂ =
    let some_inode : (q == null) ≡ false = ground arith in
    let here : (q == q) ≡ true = ground arith in rw (e₁, e₂, some_inode, here, here) refl
