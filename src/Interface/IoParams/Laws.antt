-- ===== src/Interface/IoParams/Laws.antt =====
-- Which offsets and lengths `vtfs_validate_io_params` accepts.
use os_course_lab.Base.{
  ℕ, ◌+◌, ◌-◌, ◌^◌, ◌<◌, ◌≤◌, ◌≡◌, refl, true, false, none, some, arith, leb, if◌then◌else◌,
}
use os_course_lab.Interface.{ok, err, einval, efbig}
use os_course_lab.Interface.IoParams.{validate_io_params}

-- For an offset below 2 ^ 64 and a length below 2 ^ 63, exactly the ranges that begin and end
-- below 2 ^ 63 are accepted, and `*new_size` is their end; a range that begins later is refused
-- with EINVAL and one that ends later with EFBIG.
pub validate_io_params_lem :
    (offset len : ℕ)
    → offset < 2 ^ 64
    → len < 2 ^ 63
    → validate_io_params offset len true ≡ (
        if leb (2 ^ 63) offset
        then err einval
        else if leb (2 ^ 63) (offset + len)
        then err efbig
        else ok (some (offset + len)))
unfolding validate_io_params
validate_io_params_lem offset len ho hl = ground arith

-- For an offset below 2 ^ 63 and a length below 2 ^ 64 whose sum reaches 2 ^ 64, the range is
-- accepted with the wrapped sum as `*new_size`, which is below the offset.
pub validate_io_params_wraps :
    (offset len : ℕ)
    → offset < 2 ^ 63
    → len < 2 ^ 64
    → 2 ^ 64 ≤ offset + len
    → (validate_io_params offset len true ≡ ok (some (offset + len - 2 ^ 64)))
      × (offset + len - 2 ^ 64 < offset)
unfolding validate_io_params
validate_io_params_wraps offset len ho hl over = ground arith

-- Without an out parameter only the sign of the offset is checked.
pub validate_offset :
    (offset len : ℕ)
    → validate_io_params offset len false ≡ (if leb (2 ^ 63) offset then err einval else ok none)
unfolding validate_io_params
validate_offset offset len = refl
