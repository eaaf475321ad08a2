-- ===== src/Vfs/Dentries/OnNet/Memory.antt =====
-- What a mount of the server's storage allocates.
use os_course_lab.Base.{
  IfDone, IfDone-bind, IfDone-any, IfDone-mono, ℕ, ◌+◌, ◌≡◌, ◌≢◌, refl, ap, ◌∙◌, ◌⊎◌, inl, inr,
  Bool, true, false, Bool-cases, Option, none, some, List, [], done, ◌>>=◌, ◌==◌, leb, length, take,
  arith,
}
use os_course_lab.Base.Text.{codes}
use os_course_lab.Interface.{NodeMeta}
use os_course_lab.Net.Decode.{parse_node_meta}
use os_course_lab.Net.Http.Response.{Response, as_int}
use os_course_lab.Net.Http.Sockets.{Kernel}
use os_course_lab.Net.Http.Call.{vtfs_http_call}
use os_course_lab.Net.Http.Call.Release.{one_if, Counts, vtfs_http_call-releases}
use os_course_lab.Net.Storage.{Reply, meta_reply, response_memory}
use os_course_lab.Net.Storage.Mount.{
  Mounted, max_token_len, init_answered, init_allocated, or_remount, init, shutdown, get_root,
}
use os_course_lab.Net.Storage.OnHttp.{UserMemory, over_http}
use os_course_lab.Vfs.Dentries.{Ptr, null, Inode, written, put_inode, dir_inode}
use os_course_lab.Vfs.Dentries.Mount.{
  Filled, iput, make_root, root_answered, super_initialized, vtfs_fill_super,
}
use os_course_lab.Vfs.Dentries.OnNet.{OnHost, init_on, beside, net_ops}

abbrev pub is_mounted : Option (List ℕ) → ℕ
is_mounted none = 0
is_mounted (some token) = 1

module _ {W : Type 0} (kernel : Kernel W) (user : UserMemory W) (sockets blocks : W → ℕ)
    (counts : Counts kernel sockets blocks) (b : ℕ) where
  -- One block for a storage that is there, besides `b` others.
  abbrev Balanced : OnHost W → Type 0
  Balanced (sb, w) = blocks w ≡ b + is_mounted sb

  Balanced-call :
      (token method : List ℕ) (size : ℕ) (sb : Option (List ℕ)) (w : W)
      → Balanced (sb, w)
      → IfDone
          (λ answered. Balanced (sb, answered.1))
          (vtfs_http_call kernel token method size [] w)
  Balanced-call token method size sb w h =
      IfDone-mono _ (λ answered. Balanced (sb, answered.1))
        (vtfs_http_call kernel token method size [] w)
        (vtfs_http_call-releases kernel sockets blocks counts token method size [] w)
        (λ answered kept. kept.1 ∙ h)

  -- After `init`
  abbrev IsInit : ℕ × OnHost W → Type 0
  IsInit (code, s) = Balanced s × ((code ≡ 0) ⊎ (s.0 ≡ none))

  Balanced-free :
      (token : List ℕ) (w : W) → Balanced (some token, w) → Balanced (none, kernel.kfree w)
  Balanced-free token w h = omega (arith, (counts.freed w).1, h)

  abbrev IsMounted : Mounted × W → Type 0
  IsMounted (m, w) = Balanced (m.s_fs_info, w) × ((m.code ≡ 0) ⊎ (m.s_fs_info ≡ none))

  IsMounted-init_answered :
      (token : List ℕ) (r : Response) (w : W)
      → Balanced (some token, w)
      → IsMounted (init_answered (over_http kernel user) token (r, w))
  IsMounted-init_answered token r w h = elim (Bool-cases (r.return_value == 0)) [
    | inl good ↦ rw good (h, inl refl)
    | inr other ↦ rw other (elim (Bool-cases (r.return_value == 17)) [
      | inl exists ↦ rw exists (h, inl refl)
      | inr bad ↦ rw bad (Balanced-free token w h, inr refl)
    ])
  ]

  IsMounted-init_allocated :
      (token : List ℕ) (room : Bool × W)
      → blocks room.1 ≡ b + one_if room.0
      → IfDone IsMounted (init_allocated (over_http kernel user) token none room)
  IsMounted-init_allocated token (false, w) h = (h, inr refl)
  IsMounted-init_allocated token (true, w) h =
      elim (Bool-cases (leb max_token_len (length token))) [
        | inl long ↦ rw long (Balanced-free token w h, inr refl)
        | inr short ↦ rw short (
            IfDone-bind (λ answered. Balanced (some (take 255 token), answered.1)) IsMounted
              (vtfs_http_call kernel (take 255 token) (codes "init") 1024 [] w) _
              (Balanced-call (take 255 token) (codes "init") 1024 (some (take 255 token)) w h)
              (λ answered h'. IsMounted-init_answered (take 255 token) answered.0 answered.1 h'))
      ]

  IsInit-init_on :
      (token : Option (List ℕ)) (w : W)
      → blocks w ≡ b
      → IfDone IsInit (init_on (over_http kernel user) token (none, w))
  unfolding init
  IsInit-init_on token w h =
      let room = counts.zeroed max_token_len w in
      IfDone-bind IsMounted IsInit
        (init_allocated (over_http kernel user) (or_remount token) none
          (kernel.kzalloc max_token_len w))
        _
        (IsMounted-init_allocated (or_remount token) (kernel.kzalloc max_token_len w)
          (omega (arith, room.1, h)))
        (λ mounted good. good)

  Balanced-shutdown :
      (s : OnHost W)
      → Balanced s
      → Balanced (shutdown (over_http kernel user) s.0 s.1)
        × ((shutdown (over_http kernel user) s.0 s.1).0 ≡ none)
  unfolding shutdown
  Balanced-shutdown (none, w) h = (h, refl)
  Balanced-shutdown (some token, w) h = (Balanced-free token w h, refl)

  -- What a mount leaves
  abbrev IsFilled : Filled (OnHost W) → Type 0
  IsFilled f =
      Balanced f.vfs.storage
      × (((f.code ≡ 0) × (f.s_root ≢ none)) ⊎ ((f.s_root ≡ none) × (f.vfs.storage.0 ≡ none)))

  meta_reply-keeps :
      (r : Response) (w : W)
      → IfDone (λ (answered : Reply NodeMeta × W). answered.1 ≡ w) (meta_reply as_int (r, w))
  meta_reply-keeps r w = elim (Bool-cases (r.return_value == 0)) [
    | inr bad ↦ rw bad refl
    | inl good ↦ rw good (
        IfDone-bind (λ memory. Unit) (λ answered. answered.1 ≡ w) (response_memory 1024 r.bytes) _
          (IfDone-any (response_memory 1024 r.bytes))
          (λ memory u.
            IfDone-bind (λ meta. Unit) (λ answered. answered.1 ≡ w) (parse_node_meta memory) _
              (IfDone-any (parse_node_meta memory)) (λ meta u'. refl)))
  ]

  Balanced-get_root :
      (sb : Option (List ℕ)) (w : W)
      → Balanced (sb, w)
      → IfDone (λ answered. Balanced (sb, answered.1)) (get_root (over_http kernel user) sb w)
  unfolding get_root
  Balanced-get_root none w h = h
  Balanced-get_root (some token) w h =
      IfDone-bind (λ answered. Balanced (some token, answered.1))
        (λ answered. Balanced (some token, answered.1))
        (vtfs_http_call kernel token (codes "get_root") 1024 [] w) _
        (Balanced-call token (codes "get_root") 1024 (some token) w h)
        (λ answered h'.
          IfDone-mono (λ a. a.1 ≡ answered.1) (λ a. Balanced (some token, a.1))
            (meta_reply as_int answered) (meta_reply-keeps answered.0 answered.1)
            (λ a same. ap blocks same ∙ h'))

  -- The reply of get_root on the superblock's storage
  IsFilled-shutdown :
      (code : ℕ) (inodes : Ptr → Option Inode) (s : OnHost W)
      → Balanced s
      → IfDone IsFilled (
          done (shutdown (over_http kernel user) s.0 s.1) >>= λ s'.
          done
            (record { code = code; s_root = none; vfs = record { inodes = inodes; storage = s' } }))
  IsFilled-shutdown code inodes s h =
      let (kept, gone) = Balanced-shutdown s h in (kept, inr (refl, gone))

  IsFilled-make_root :
      (made : Bool) (q : Ptr) (inodes : Ptr → Option Inode) (s : OnHost W)
      → Balanced s
      → IfDone IsFilled (make_root (net_ops (over_http kernel user)) made q inodes s)
  IsFilled-make_root true q inodes s h = (h, inl (refl, λ e. absurd (ground (arith, e))))
  IsFilled-make_root false q inodes s h =
      IfDone-bind (λ dropped. Unit) IsFilled (iput inodes q) _ (IfDone-any (iput inodes q))
        (λ dropped u.
          IfDone-bind (λ inodes'. Unit) IsFilled (iput dropped q) _ (IfDone-any (iput dropped q))
            (λ inodes' u'. IsFilled-shutdown _ inodes' s h))

  IsFilled-root_answered :
      (made : Bool) (q : Ptr) (inodes : Ptr → Option Inode) (reply : Reply NodeMeta) (s : OnHost W)
      → Balanced s
      → IfDone IsFilled (root_answered (net_ops (over_http kernel user)) made q inodes (reply, s))
  IsFilled-root_answered made q inodes reply s h = elim (Bool-cases (reply.code == 0)) [
    | inr bad ↦ rw bad (IsFilled-shutdown reply.code inodes s h)
    | inl good ↦ rw good (
        IfDone-bind (λ meta. Unit) IsFilled (written reply.out) _ (IfDone-any (written reply.out))
          (λ meta u. elim (Bool-cases (q == null)) [
            | inl no_inode ↦ rw no_inode (IsFilled-shutdown _ inodes s h)
            | inr inode ↦
                rw inode
                  (IsFilled-make_root made q (put_inode inodes q (some (dir_inode meta))) s h)
          ]))
  ]

  IsFilled-super_initialized :
      (made : Bool) (q : Ptr) (inodes : Ptr → Option Inode) (init : ℕ × OnHost W)
      → IsInit init
      → IfDone IsFilled (super_initialized (net_ops (over_http kernel user)) made q inodes init)
  IsFilled-super_initialized made q inodes (code, s) (h, outcome) = elim (Bool-cases (code == 0)) [
    | inl good ↦ rw good (
        IfDone-bind (λ answered. Balanced answered.1) IsFilled
          (beside (over_http kernel user) s.0 (get_root (over_http kernel user) s.0 s.1)) _
          (IfDone-bind (λ answered. Balanced (s.0, answered.1)) (λ answered. Balanced answered.1)
            (get_root (over_http kernel user) s.0 s.1) _ (Balanced-get_root s.0 s.1 h)
            (λ answered h'. h'))
          (λ answered h'. IsFilled-root_answered made q inodes answered.0 answered.1 h'))
    | inr bad ↦
        rw bad
          (h, inr (refl, elim outcome [ inl zero_code ↦ absurd (ground arith) | inr gone ↦ gone ]))
  ]

-- With kernel calls that count sockets and blocks as documented, whatever the server answers, a
-- mount of the server's storage on a superblock without one, where it ends without a fault, either
-- returns 0 and sets a root, or sets no root and leaves no storage, and it holds one more block
-- than before exactly where it leaves a storage.
pub vtfs_fill_super-Balanced :
    {W : Type 0} (kernel : Kernel W) (user : UserMemory W) (sockets blocks : W → ℕ)
    → Counts kernel sockets blocks
    → (q : Ptr) (made : Bool) (token : Option (List ℕ)) (inodes : Ptr → Option Inode) (w : W)
    → IfDone
        (λ f.
          (blocks f.vfs.storage.1 ≡ blocks w + is_mounted f.vfs.storage.0)
          × (((f.code ≡ 0) × (f.s_root ≢ none)) ⊎ ((f.s_root ≡ none) × (f.vfs.storage.0 ≡ none))))
        (vtfs_fill_super
          (net_ops (over_http kernel user))
          q
          made
          token
          (record { inodes = inodes; storage = (none, w) }))
unfolding vtfs_fill_super
vtfs_fill_super-Balanced kernel user sockets blocks counts q made token inodes w =
    IfDone-bind (IsInit kernel user sockets blocks counts (blocks w))
      (IsFilled kernel user sockets blocks counts (blocks w))
      (init_on (over_http kernel user) token (none, w)) _
      (IsInit-init_on kernel user sockets blocks counts (blocks w) token w refl)
      (λ init good.
        IsFilled-super_initialized kernel user sockets blocks counts (blocks w) made q inodes init
          good)
