-- ===== src/Vfs/Files/Seek.antt =====
-- `vtfs_llseek` against arithmetic without wrap-around.
use os_course_lab.Base.{
  ℕ, ◌+◌, ◌-◌, ◌%◌, ◌^◌, ◌<◌, ◌≡◌, Option, none, some, arith, ltb, leb, ◌==◌, if◌then◌else◌,
}
use os_course_lab.Interface.{Result, ok, err, einval}
use os_course_lab.Vfs.Files.{File, seek_to, vtfs_llseek}

-- The sum of a number and a signed 64-bit pattern, nothing if it is negative or from 2 ^ 63 on.
abbrev pub signed_sum : (base offset : ℕ) → Option ℕ
signed_sum base offset =
    if ltb offset (2 ^ 63)
    then if ltb (base + offset) (2 ^ 63) then some (base + offset) else none
    else if leb (2 ^ 64 - offset) base
    then some (base - (2 ^ 64 - offset))
    else none

-- Where a seek counts from.
abbrev pub base_of : File → (whence : ℕ) → Option ℕ
base_of f whence =
    if whence == 0
    then some 0
    else if whence == 1
    then some f.f_pos
    else if whence == 2
    then some f.i_size
    else none

abbrev pub sum_from : Option ℕ → (offset : ℕ) → Option ℕ
sum_from none offset = none
sum_from (some base) offset = signed_sum base offset

abbrev pub sought : File → Option ℕ → Result ℕ × File
sought f none = (err einval, f)
sought f (some newpos) = (ok newpos, record f { f_pos = newpos })

seek_to-sought :
    (f : File) (base offset : ℕ)
    → base < 2 ^ 63
    → offset < 2 ^ 64
    → seek_to ((base + offset) % 2 ^ 64) f ≡ sought f (signed_sum base offset)
seek_to-sought f base offset h h' = ground arith

-- From a position and a size below 2 ^ 63, for a 64-bit offset, a seek moves the position to the
-- sum of the signed offset and 0, the position or the size by `whence`, without wrap-around; it is
-- refused and leaves the file exactly where this sum is negative or from 2 ^ 63 on, or `whence` is
-- none of the three.
pub vtfs_llseek-sought :
    (f : File) (offset whence : ℕ)
    → f.f_pos < 2 ^ 63
    → f.i_size < 2 ^ 63
    → offset < 2 ^ 64
    → vtfs_llseek f offset whence ≡ sought f (sum_from (base_of f whence) offset)
unfolding vtfs_llseek
vtfs_llseek-sought f offset whence hp hs ho = ground (
  arith,
  seek_to-sought f 0 offset (omega arith) ho,
  seek_to-sought f f.f_pos offset hp ho,
  seek_to-sought f f.i_size offset hs ho,
)
