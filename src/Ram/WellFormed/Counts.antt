-- ===== src/Ram/WellFormed/Counts.antt =====
-- Dropping and taking references, and the heaps that the operations leave.
use os_course_lab.Base.{
  ◌+◌, ◌-◌, ◌%◌, ◌^◌, ◌<◌, ◌≡◌, ◌≢◌, false, none, some, arith, ◌==◌, if◌then◌else◌, done,
}
use os_course_lab.Ram.State.{Ptr, null, Payload, Heap, load, update}
use os_course_lab.Ram.Payload.{payload_get, payload_put}

-- The heap after one reference to the payload `p` at `q` is dropped.
unfoldable pub dropped : Heap → Ptr → Payload → Heap
dropped h q p =
    update h q
      (if p.ref_count - 1 == 0 then none else some (record p { ref_count = p.ref_count - 1 }))

-- The heap after one more reference is taken.
unfoldable pub shared : Heap → Ptr → Payload → Heap
shared h q p = update h q (some (record p { ref_count = p.ref_count + 1 }))

module _ (h : Heap) (q : Ptr) (p : Payload) (loads : load h q ≡ done p) (nn : q ≢ null) where
  pub payload_put-dropped :
      0 < p.ref_count → p.ref_count < 2 ^ 32 → payload_put q h ≡ done (dropped h q p)
  unfolding payload_put dropped
  payload_put-dropped pos small =
      let nz : (q == null) ≡ false = ground arith in
      let less : (p.ref_count + 2 ^ 32 - 1) % 2 ^ 32 ≡ p.ref_count - 1 = omega arith in
      rw (nz, loads, less)

  pub payload_get-shared : p.ref_count + 1 < 2 ^ 32 → payload_get q h ≡ done (shared h q p)
  unfolding payload_get shared
  payload_get-shared small =
      let nz : (q == null) ≡ false = ground arith in
      let more : (p.ref_count + 1) % 2 ^ 32 ≡ p.ref_count + 1 = omega arith in rw (nz, loads, more)
