-- ===== src/Ram/Laws/Grow.antt =====
-- The growth of a buffer before a write.
use os_course_lab.Base.{
  ℕ, ◌+◌, ◌-◌, ◌%◌, ◌^◌, ◌<◌, ◌≤◌, ◌≡◌, refl, ◌∙◌, inl, inr, true, Option, none, some, List, arith,
  ltb, ltb→lt, leb, done, Option-cases, Bool-cases, Ensures, length, take, replicate, take_all,
  length-replicate,
}
use os_course_lab.Base.Splice.{splice, length-splice, take-splice}
use os_course_lab.Base.Buffers.{store_bytes}
use os_course_lab.Ram.State.{Payload}
use os_course_lab.Ram.Content.{Kernel, IsDocumented, grow, new_capacity, install}

pub store_bytes-splice :
    (buf : List ℕ) (at : ℕ) (new : List ℕ)
    → at + length new ≤ length buf
    → store_bytes buf at new ≡ done (splice buf at new)
unfolding store_bytes
store_bytes-splice buf at new h =
    let fits : leb (at + length new) (length buf) ≡ true = ground arith in rw fits

-- The payload with room for `size` bytes: longer, and with the old buffer in front.
pub record IsGrown (p : Payload) (size : ℕ) (p' : Payload) : Type 0 where
  pub meta : p'.meta ≡ p.meta
  pub refs : p'.ref_count ≡ p.ref_count
  pub allocated : length p'.bytes ≡ p'.capacity
  pub room : size ≤ p'.capacity
  pub grows : p.capacity ≤ p'.capacity
  pub fits : p'.capacity < 2 ^ 64
  pub keeps : take p.capacity p'.bytes ≡ p.bytes

abbrev pub Grown : Kernel → Payload → ℕ → Option Payload → Type 0
Grown k p size none = k.krealloc p.bytes (new_capacity size) ≡ none
Grown k p size (some p') = IsGrown p size p'

module _ (k : Kernel) (ok_k : IsDocumented k) (p : Payload) (size : ℕ)
    (allocated : length p.bytes ≡ p.capacity) (fits : p.capacity < 2 ^ 64)
    (small : size < 2 ^ 63) where
  module _ (short : p.capacity < size) (new : List ℕ)
      (got : k.krealloc p.bytes (new_capacity size) ≡ some new) where
    long :
        (length new ≡ new_capacity size)
        × (p.capacity < new_capacity size)
        × (size ≤ new_capacity size)
        × (new_capacity size < 2 ^ 64)
    long = (
      ok_k.length-krealloc p.bytes new (new_capacity size) got,
      ground arith,
      ground arith,
      ground arith,
    )

    front : take p.capacity new ≡ p.bytes
    front =
        rw (← allocated)
          (ok_k.krealloc_keeps p.bytes new (new_capacity size) got (ground (arith, long)))

    fits_new :
        (at n : ℕ) → at + n ≡ new_capacity size → at + length (replicate {A = ℕ} n 0) ≤ length new
    fits_new at n whole = rw (length-replicate {A = ℕ} n 0, whole, long.0) (omega arith)

    -- The buffer after one of the two calls of memset.
    cleared-IsGrown :
        (at n : ℕ)
        → at ≡ p.capacity
        → at + n ≡ new_capacity size
        → IsGrown p size
            (record p { bytes = splice new at (replicate n 0); capacity = new_capacity size })
    cleared-IsGrown at n start whole =
        let (len, more, room, word) = long in
        let inside : at + length (replicate {A = ℕ} n 0) ≤ length new = fits_new at n whole in
        record {
          meta = refl;
          refs = refl;
          allocated = length-splice new at (replicate n 0) inside ∙ len;
          room = room;
          grows = omega arith;
          fits = word;
          keeps = rw (← start) (take-splice new at (replicate n 0) (omega arith) ∙ rw start front);
        }

    installed-Grown : Ensures (Grown k p size) (install p (new_capacity size) (some new))
    installed-Grown =
        let (len, more, room, word) = long in
        elim (Bool-cases (ltb 0 p.capacity)) [
          | inl old ↦
              let n = (new_capacity size + 2 ^ 64 - p.capacity) % 2 ^ 64 in
              let whole : p.capacity + n ≡ new_capacity size = omega arith in
              rw
                (
                  old,
                  store_bytes-splice new p.capacity (replicate n 0) (fits_new p.capacity n whole),
                )
                (cleared-IsGrown p.capacity n refl whole)
          | inr fresh ↦
              let empty : 0 ≡ p.capacity = ground arith in
              rw
                (
                  fresh,
                  store_bytes-splice new 0 (replicate (new_capacity size) 0)
                      (fits_new 0 (new_capacity size) (omega arith)),
                )
                (cleared-IsGrown 0 (new_capacity size) empty (omega arith))
        ]

  -- Growing never writes out of bounds.
  pub grow-Grown : Ensures (Grown k p size) (grow k p size)
  unfolding grow
  grow-Grown = elim (Bool-cases (ltb p.capacity size)) [
    | inr enough ↦ rw enough (record {
      meta = refl;
      refs = refl;
      allocated = allocated;
      room = ground arith;
      grows = omega arith;
      fits = fits;
      keeps = take_all p.capacity p.bytes (omega arith);
    })
    | inl short ↦ elim (Option-cases (k.krealloc p.bytes (new_capacity size))) [
      | inl e ↦ rw (short, e) e
      | inr (new, e) ↦ rw (short, e) (installed-Grown (ltb→lt p.capacity size short) new e)
    ]
  ]
