-- ===== src/Net/Storage/Errors.antt =====
-- What the operations return where the server, or the call, fails.
use os_course_lab.Base.{
  ℕ, ◌+◌, ◌%◌, ◌^◌, ◌-◌, leb, none, ◌<◌, ◌≤◌, ◌≡◌, ◌≢◌, ◌⊎◌, inl, inr, refl, Bool, true, false,
  some, List, [], Bool-cases, done, ◌>>=◌, ◌==◌, length, Ensures, Ensures-bind, arith,
}
use os_course_lab.Interface.{NodeMeta}
use os_course_lab.Net.Base64.Laws.{AllBytes}
use os_course_lab.Net.Http.Request.{Arg}
use os_course_lab.Net.Http.Response.{Response, as_int}
use os_course_lab.Net.Storage.{Host, Reply, plain_reply, meta_reply, or_enoent}
use os_course_lab.Net.Storage.Entries.{
  lookup, iterate_dir, dirent_reply, create_file, create_dir, unlink, rmdir, link, count_reply,
  count_links,
}
use os_course_lab.Net.Storage.Content.{Moved, read_answered, read_allocated, read}
use os_course_lab.Net.Storage.Requests.{encode_name-fits}

-- The code is the `int` with the low half of the value, sign-extended to 64 bits.
abbrev pub IsIntOf : (v code : ℕ) → Type 0
IsIntOf v code =
    (code % 2 ^ 32 ≡ v % 2 ^ 32) × ((code < 2 ^ 31) ⊎ ((2 ^ 64 - 2 ^ 31 ≤ code) × (code < 2 ^ 64)))

-- The same, with -2 for the value 2.
abbrev pub IsIntOrAbsent : (v code : ℕ) → Type 0
IsIntOrAbsent v code = ((v ≡ 2) × (code ≡ 2 ^ 64 - 2)) ⊎ ((v ≢ 2) × IsIntOf v code)

as_int-IsIntOf : (v : ℕ) → IsIntOf v (as_int v)
as_int-IsIntOf v = elim (Bool-cases (leb (2 ^ 31) (v % 2 ^ 32))) [
  | inl high ↦
      let low : 2 ^ 31 ≤ v % 2 ^ 32 = ground (arith, high) in
      rw high (omega arith, inr (omega arith, omega arith))
  | inr below ↦
      let low : v % 2 ^ 32 < 2 ^ 31 = ground (arith, below) in
      rw below (omega arith, inl (omega arith))
]

or_enoent-IsIntOrAbsent : (v : ℕ) → IsIntOrAbsent v (or_enoent v)
or_enoent-IsIntOrAbsent v = elim (Bool-cases (v == 2)) [
  | inl two ↦ rw two (inl (ground (arith, two), refl))
  | inr other ↦ rw other (inr (ground (arith, other), as_int-IsIntOf v))
]

-- A reply without an answer, by its code, and a count that is a code of a read.
abbrev pub Refuses : {A : Type 0} → (ℕ → Type 0) → Reply A → Type 0
Refuses IsCode reply = (reply.out ≡ none) × IsCode reply.code

abbrev pub ReadRefuses : (v offset : ℕ) → Moved → Type 0
ReadRefuses v offset m =
    (m.bytes ≡ []) × (m.offset ≡ some offset) × (IsIntOf v m.count ⊎ (m.count ≡ 2 ^ 64 - 12))

module _ {W : Type 0} (host : Host W) (token : List ℕ) (v : ℕ) (bad : v ≢ 0) where
  -- Every call ends with the value `v`.
  abbrev pub AlwaysFails : Type 0
  AlwaysFails =
      (method : List ℕ) (size : ℕ) (args : List Arg) (w : W)
      → Ensures (λ answer. answer.0.return_value ≡ v) (host.call token method size args w)

  module _ (fails : AlwaysFails) where
    abbrev IsAnswer : Response × W → Type 0
    IsAnswer answer = answer.0.return_value ≡ v

    meta_reply-failed :
        (IsCode : ℕ → Type 0) (refusal : ℕ → ℕ) (r : Response) (w : W)
        → IsCode (refusal v)
        → r.return_value ≡ v
        → Ensures
            (λ (reply : Reply NodeMeta × W). Refuses IsCode reply.0)
            (meta_reply refusal (r, w))
    meta_reply-failed IsCode refusal r w is e =
        let other : (v == 0) ≡ false = ground arith in rw (e, other) (refl, is)

    plain_reply-failed :
        (r : Response) (w : W) → r.return_value ≡ v → IsIntOf v (plain_reply (r, w)).0
    plain_reply-failed r w e =
        let other : (v == 0) ≡ false = ground arith in rw (e, other) (as_int-IsIntOf v)

    count_reply-failed :
        (r : Response) (w : W)
        → r.return_value ≡ v
        → Ensures (λ a. a.0 ≡ 0) (count_reply host (r, w))
    count_reply-failed r w e = let other : (v == 0) ≡ false = ground arith in rw (e, other) refl

    dirent_reply-failed :
        (offset : ℕ) (r : Response) (w : W)
        → r.return_value ≡ v
        → Ensures (λ reply. Refuses (IsIntOrAbsent v) reply.0) (dirent_reply host offset (r, w))
    dirent_reply-failed offset r w e =
        let other : (v == 0) ≡ false = ground arith in
        rw (e, other) (refl, or_enoent-IsIntOrAbsent v)

    read_allocated-failed :
        (ino len offset size : ℕ) (room : Bool × W)
        → Ensures
            (λ m. ReadRefuses v offset m.0)
            (read_allocated host token ino len offset size room)
    read_allocated-failed ino len offset size (false, w) = (refl, refl, inr refl)
    read_allocated-failed ino len offset size (true, w) =
        let other : (v == 0) ≡ false = ground arith in
        Ensures-bind IsAnswer _ _ (λ answer. read_answered host len offset size answer)
          (λ answer e. rw (e, other) (refl, refl, inl (as_int-IsIntOf v))) (fails _ _ _ w)

    -- The calls whose replies are read alike
    meta_call-failed :
        (IsCode : ℕ → Type 0) (refusal : ℕ → ℕ) (method : List ℕ) (args : List Arg) (w : W)
        → IsCode (refusal v)
        → Ensures
            (λ reply. Refuses IsCode reply.0)
            (host.call token method 1024 args w >>= meta_reply refusal)
    meta_call-failed IsCode refusal method args w is =
        Ensures-bind IsAnswer _ _ _ (λ a e. meta_reply-failed IsCode refusal a.0 a.1 is e)
          (fails method 1024 args w)

    plain_call-failed :
        (method : List ℕ) (args : List Arg) (w : W)
        → Ensures
            (λ reply. IsIntOf v reply.0)
            (host.call token method 1024 args w >>= λ answer. done (plain_reply answer))
    plain_call-failed method args w =
        Ensures-bind IsAnswer _ _ _ (λ a e. plain_reply-failed a.0 a.1 e) (fails method 1024 args w)

  -- Where every call of the token ends with the value v other than 0, the operations of the
  -- server's storage, on a name of at most 255 bytes and with their pointers given, end without a
  -- fault and without an answer: a lookup and the iteration return -2 where v is 2, and else the
  -- `int` with the low 32 bits of v, the creations, unlink, rmdir and link return this `int`, the
  -- count of links is 0, and a read stores no bytes, leaves `*offset` and returns this `int` or
  -- -12.
  pub operations-failed :
      (name : List ℕ) (parent mode target ino len offset : ℕ) (w : W)
      → AlwaysFails
      → AllBytes name
      → length name ≤ 255
      → Ensures (λ a. Refuses (IsIntOrAbsent v) a.0) (lookup host (some token) parent (some name) w)
        × Ensures
            (λ a. Refuses (IsIntOrAbsent v) a.0)
            (iterate_dir host (some token) ino (some offset) true w)
        × Ensures
            (λ a. Refuses (IsIntOf v) a.0)
            (create_file host (some token) parent (some name) mode w)
        × Ensures
            (λ a. Refuses (IsIntOf v) a.0)
            (create_dir host (some token) parent (some name) mode w)
        × Ensures (λ a. IsIntOf v a.0) (unlink host (some token) parent (some name) w)
        × Ensures (λ a. IsIntOf v a.0) (rmdir host (some token) parent (some name) w)
        × Ensures (λ a. IsIntOf v a.0) (link host (some token) target parent (some name) w)
        × Ensures (λ a. a.0 ≡ 0) (count_links host (some token) ino w)
        × Ensures
            (λ m. ReadRefuses v offset m.0)
            (read host (some token) ino true len (some offset) w)
  unfolding lookup iterate_dir create_file create_dir unlink rmdir link count_links read
  operations-failed name parent mode target ino len offset w fails all short =
      let fits = encode_name-fits name all short in
      (
        rw fits
            (meta_call-failed fails (IsIntOrAbsent v) or_enoent _ _ w (or_enoent-IsIntOrAbsent v)),
        Ensures-bind (IsAnswer fails) _ _ _ (λ a e. dirent_reply-failed fails offset a.0 a.1 e)
            (fails _ _ _ w),
        rw fits (meta_call-failed fails (IsIntOf v) as_int _ _ w (as_int-IsIntOf v)),
        rw fits (meta_call-failed fails (IsIntOf v) as_int _ _ w (as_int-IsIntOf v)),
        rw fits (plain_call-failed fails _ _ w),
        rw fits (plain_call-failed fails _ _ w),
        rw fits (plain_call-failed fails _ _ w),
        Ensures-bind (IsAnswer fails) _ _ _ (λ a e. count_reply-failed fails a.0 a.1 e)
            (fails _ _ _ w),
        read_allocated-failed fails ino len offset ((len + 1024) % 2 ^ 64)
            (host.kmalloc ((len + 1024) % 2 ^ 64) w),
      )
