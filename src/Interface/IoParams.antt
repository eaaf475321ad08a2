-- ===== src/Interface/IoParams.antt =====
-- `vtfs_validate_io_params` of source/vtfs.c. Offsets are `loff_t` and lengths `size_t`, both as
-- 64-bit patterns.
pub mod Laws
use os_course_lab.Base.{ℕ, ◌+◌, ◌%◌, ◌^◌, Bool, Option, none, some, ltb, leb, if◌then◌else◌}
use os_course_lab.Interface.Defs.{Result, ok, err, einval, efbig}

-- `x < 0` for a `loff_t`
abbrev pub is_negative : ℕ → Bool
is_negative x = leb (2 ^ 63) x

-- `a < b` for two `loff_t`
abbrev pub slt : ℕ → ℕ → Bool
slt a b = ltb ((a + 2 ^ 63) % 2 ^ 64) ((b + 2 ^ 63) % 2 ^ 64)

-- The flag says whether `new_size_out` is not NULL; the answer holds what is stored there.
unfoldable pub validate_io_params : (offset len : ℕ) → Bool → Result (Option ℕ)
validate_io_params offset len new_size_out =
    if is_negative offset
    then err einval
    else if new_size_out
    then (let new_size = (offset + len) % 2 ^ 64 in
        if is_negative new_size then err efbig else ok (some new_size))
    else ok none
