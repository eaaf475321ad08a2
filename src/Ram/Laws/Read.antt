-- ===== src/Ram/Laws/Read.antt =====
-- `read`.
use os_course_lab.Base.{
  ℕ, ◌+◌, ◌-◌, ◌%◌, ◌^◌, ◌<◌, ◌≤◌, ◌≡◌, ◌≢◌, refl, sym, ◌⊎◌, inl, inr, true, false, none, some,
  List, [], arith, leb, leb→le, ◌==◌, Option-cases, Bool-cases, Ensures, Ensures-bind, length, take,
  drop, min,
}
use os_course_lab.Base.Splice.{take-drop-take, length-range}
use os_course_lab.Interface.{Errno, Result, ok, err, enoent, eisdir, efault, einval, is_file}
use os_course_lab.Interface.IoParams.{slt}
use os_course_lab.Interface.IoParams.Laws.{validate_offset}
use os_course_lab.Ram.State.{null, Payload, Ram}
use os_course_lab.Ram.Find.{find_payload_by_ino}
use os_course_lab.Ram.Content.{Kernel, Transfer, copy_out, to_read, read_payload, read_body}
use os_course_lab.Ram.WellFormed.{IsPayload, IsWellFormed}
use os_course_lab.Ram.View.{inode, inode-inv, inode-IsNone, find_node_by_ino-eq}

-- What a file holds: the buffer up to the size.
abbrev pub content : Payload → List ℕ
content p = take p.meta.size p.bytes

abbrev pub ReadRefused : Kernel → Errno → Payload → (len offset : ℕ) → Type 0
ReadRefused k e p len offset =
    ((e ≡ eisdir) × (is_file p.meta.type ≡ false))
    ⊎ ((e ≡ einval) × (2 ^ 63 ≤ offset))
    ⊎ ((e ≡ efault) × (k.copy_to_user (take len (drop offset (content p))) ≢ 0))

abbrev pub HasRead : Kernel → Payload → (len offset : ℕ) → Result Transfer → Type 0
HasRead k p len offset (ok t) =
    (t.moved ≡ take len (drop offset (content p))) × (t.offset ≡ offset + length t.moved)
HasRead k p len offset (err e) = ReadRefused k e p len offset

module _ (k : Kernel) (next : ℕ) (p : Payload) (good : IsPayload next p) (len offset : ℕ)
    (ho : offset < 2 ^ 64) (hl : len < 2 ^ 64) where
  -- Past the end there is nothing, and the offset stays.
  nothing :
      min len (p.meta.size - offset) ≡ 0
      → HasRead k p len offset (ok (record { moved = []; offset = offset }))
  nothing e = (sym (take-drop-take len offset p.meta.size 0 p.bytes (sym e)), omega arith)

  some_bytes :
      (n : ℕ)
      → n ≡ min len (p.meta.size - offset)
      → offset + n ≤ p.meta.size
      → HasRead k p len offset
          (ok (record { moved = take n (drop offset p.bytes); offset = (offset + n) % 2 ^ 64 }))
  some_bytes n e inside = (
    sym (take-drop-take len offset p.meta.size n p.bytes e),
    omega (
      arith,
      length-range n offset p.bytes (omega (arith, good.allocated, good.within)),
      good.signed,
    ),
  )

  copy_out-HasRead :
      (n : ℕ)
      → n ≡ min len (p.meta.size - offset)
      → offset + n ≤ p.meta.size
      → Ensures (HasRead k p len offset) (copy_out k p n offset)
  unfolding copy_out
  copy_out-HasRead n e inside = elim (Bool-cases (n == 0)) [
    | inl none_left ↦ rw none_left (nothing (ground arith))
    | inr some_left ↦
        let fits : leb (offset + n) (length p.bytes) ≡ true =
          ground (arith, good.allocated, good.within) in
        rw (some_left, fits)
          (elim (Bool-cases (k.copy_to_user (take n (drop offset p.bytes)) == 0)) [
            | inl all ↦ rw all (some_bytes n e inside)
            | inr part ↦ rw part (inr (inr (refl, rw (← (some_bytes n e inside).0) (ground arith))))
          ])
  ]

  -- A read of a payload never faults: it stays inside the buffer.
  pub read_payload-HasRead : Ensures (HasRead k p len offset) (read_payload k p len offset)
  unfolding read_payload
  read_payload-HasRead = elim (Bool-cases (is_file p.meta.type)) [
    | inr other ↦ rw other (inl (refl, other))
    | inl reg ↦ elim (Bool-cases (leb (2 ^ 63) offset)) [
      | inl neg ↦
          rw (reg, validate_offset offset len, neg, read_payload) (inr (inl (refl, leb→le _ _ neg)))
      | inr valid ↦ elim (Bool-cases (slt offset p.meta.size)) [
        | inr past ↦
            rw (reg, validate_offset offset len, valid, past, read_payload)
              (nothing (ground (arith, good.signed)))
        | inl inside ↦
            rw (reg, validate_offset offset len, valid, inside, read_payload)
              (copy_out-HasRead (to_read p.meta.size len offset) (ground (arith, good.signed))
                (ground (arith, good.signed)))
      ]
    ]
  ]

abbrev pub ReadFrom : Kernel → ℕ → (len offset : ℕ) → Ram → Result Transfer × Ram → Type 0
ReadFrom k ino len offset r (answer, r') =
    (r' ≡ r)
    × (((answer ≡ err enoent) × (inode r ino ≡ none))
        ⊎ ((p : Payload) × (inode r ino ≡ some p) × HasRead k p len offset answer))

-- On a well-formed storage a read at an offset and of a length below 2 ^ 64 never faults and
-- changes nothing. Where it succeeds, it gives the bytes of the file from the offset on, as many
-- as there are and as were asked for, and moves the offset by their number. Where it is refused,
-- the inode is missing or no regular file, the offset is from 2 ^ 63 on, or the copy of these
-- bytes to the user was not complete.
pub read_body-ReadFrom :
    (k : Kernel) (r : Ram) (w : IsWellFormed r) (ino len offset : ℕ)
    → offset < 2 ^ 64
    → len < 2 ^ 64
    → Ensures (ReadFrom k ino len offset r) (read_body k ino len offset r)
unfolding read_body find_payload_by_ino
read_body-ReadFrom k r w ino len offset ho hl = elim (Option-cases (inode r ino)) [
  | inl e ↦ rw (find_node_by_ino-eq r w ino, inode-IsNone r w ino e) (refl, inl (refl, e))
  | inr (p, e) ↦
      let (n, found, at, loads, nn, same) = inode-inv r w ino p e in
      let nz : (n.payload == null) ≡ false = ground arith in
      rw (find_node_by_ino-eq r w ino, found, nz, loads)
        (Ensures-bind (HasRead k p len offset) (ReadFrom k ino len offset r)
          (read_payload k p len offset) _ (λ answer has. (refl, inr (p, e, has)))
          (read_payload-HasRead k r.next_ino p (w.payloads n.payload p at) len offset ho hl))
]
