-- ===== src/Base/Buffers.antt =====
-- Access to buffers: it faults where it leaves the buffer.
use Prim.Native.Nat.{ℕ, ◌+◌}
use mathlib.Core.List.{List}
use os_course_lab.Base.Tests.{leb, if◌then◌else◌}
use os_course_lab.Base.Lists.{length, take, drop}
use os_course_lab.Base.Faults.{Run, done, fault}
use os_course_lab.Base.Splice.{splice}

-- Access to `n` bytes of a buffer; a fault past its end.
unfoldable pub load_bytes : List ℕ → (at n : ℕ) → Run (List ℕ)
load_bytes buf at n = if leb (at + n) (length buf) then done (take n (drop at buf)) else fault

unfoldable pub store_bytes : List ℕ → (at : ℕ) → List ℕ → Run (List ℕ)
store_bytes buf at new =
    if leb (at + length new) (length buf) then done (splice buf at new) else fault
