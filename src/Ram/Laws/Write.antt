-- ===== src/Ram/Laws/Write.antt =====
-- `write`.
use os_course_lab.Base.{
  ◌≢◌, ℕ, ◌+◌, ◌%◌, ◌^◌, ◌<◌, ◌≤◌, ◌≡◌, refl, sym, ap, ◌∙◌, ◌⊎◌, inl, inr, true, false, Option,
  none, some, List, arith, leb, leb→le, ==_iff, ◌==◌, Bool-cases, Ensures, Ensures-bind, length,
  take, drop, get_elem?, max,
}
use os_course_lab.Base.Splice.{
  splice, length-splice, range-splice, get_elem?-splice_before, get_elem?-splice_after,
  get_elem?-take,
}
use os_course_lab.Interface.{
  NodeMeta, Errno, Result, ok, err, eisdir, efault, enomem, efbig, einval, is_file,
}
use os_course_lab.Interface.IoParams.Laws.{validate_io_params_lem}
use os_course_lab.Ram.State.{Payload}
use os_course_lab.Ram.Content.{
  Kernel, IsDocumented, new_capacity, grow, fill, write_grown, write_payload, extended,
}
use os_course_lab.Ram.WellFormed.{IsPayload}
use os_course_lab.Ram.Laws.Grow.{IsGrown, Grown, grow-Grown, store_bytes-splice}

-- What every write leaves alone.
pub record IsSameInode (p p' : Payload) : Type 0 where
  pub ino : p'.meta.ino ≡ p.meta.ino
  pub parent_ino : p'.meta.parent_ino ≡ p.meta.parent_ino
  pub type : p'.meta.type ≡ p.meta.type
  pub mode : p'.meta.mode ≡ p.meta.mode
  pub refs : p'.ref_count ≡ p.ref_count

-- The payload after `len` bytes of `user` are written at `offset`.
pub record IsWritten (p : Payload) (user : List ℕ) (len offset : ℕ) (p' : Payload) : Type 0 where
  pub regular : is_file p.meta.type ≡ true
  pub fits : offset + len < 2 ^ 63
  pub size : p'.meta.size ≡ max p.meta.size (offset + len)
  pub range : take len (drop offset p'.bytes) ≡ take len user
  pub before : (i : ℕ) → i < p.meta.size → i < offset → get_elem? p'.bytes i ≡ get_elem? p.bytes i
  pub after :
      (i : ℕ) → i < p.meta.size → offset + len ≤ i → get_elem? p'.bytes i ≡ get_elem? p.bytes i

abbrev pub WriteRefused : Kernel → Errno → Payload → List ℕ → (len offset : ℕ) → Payload → Type 0
WriteRefused k e p user len offset p' =
    ((e ≡ eisdir) × (is_file p.meta.type ≡ false) × (p' ≡ p))
    ⊎ ((e ≡ einval) × (2 ^ 63 ≤ offset) × (p' ≡ p))
    ⊎ ((e ≡ efbig) × (2 ^ 63 ≤ offset + len) × (p' ≡ p))
    ⊎ ((e ≡ enomem) × (k.krealloc p.bytes (new_capacity (offset + len)) ≡ none) × (p' ≡ p))
    ⊎ ((e ≡ efault) × ((k.copy_from_user user len).1 ≢ 0) × (p'.meta ≡ p.meta))

abbrev pub Wrote : Kernel → ℕ → Payload → List ℕ → (len offset : ℕ) → Result ℕ × Payload → Type 0
Wrote k next p user len offset (ok offset', p') =
    IsPayload next p' × IsSameInode p p' × (offset' ≡ offset + len) × IsWritten p user len offset p'
Wrote k next p user len offset (err e, p') =
    IsPayload next p' × IsSameInode p p' × WriteRefused k e p user len offset p'

module _ (k : Kernel) (ok_k : IsDocumented k) (next : ℕ) (p : Payload) (good : IsPayload next p)
    (user : List ℕ) (len offset : ℕ) (room : offset + len < 2 ^ 63)
    (reg : is_file p.meta.type ≡ true) where
  -- The bytes of the old file are those of the grown buffer.
  kept :
      (g : Payload)
      → IsGrown p (offset + len) g
      → (i : ℕ) → i < p.meta.size
      → get_elem? g.bytes i ≡ get_elem? p.bytes i
  kept g grown i h =
      sym (get_elem?-take p.capacity g.bytes i (omega (arith, good.within)))
      ∙ ap (λ (l : List ℕ). get_elem? l i) grown.keeps

  module _ (g : Payload) (grown : IsGrown p (offset + len) g) where
    stored : List ℕ
    stored = splice g.bytes offset (k.copy_from_user user len).0

    inside : offset + length (k.copy_from_user user len).0 ≤ length g.bytes
    inside = omega (arith, ok_k.length-copy_from_user user len, grown.allocated, grown.room)

    copied : (n : NodeMeta) → Payload
    copied n = record g { bytes = stored; meta = n }

    copied-IsPayload :
        (n : NodeMeta)
        → n.ino ≡ p.meta.ino
        → n.size ≤ max p.meta.size (offset + len)
        → IsPayload next (copied n)
    unfolding copied stored
    copied-IsPayload n e le = record {
      live = omega (arith, good.live, grown.refs);
      counts = omega (arith, good.counts, grown.refs);
      numbered = omega (arith, good.numbered);
      allocated =
          length-splice g.bytes offset (k.copy_from_user user len).0 inside ∙ grown.allocated;
      within = omega (arith, good.within, grown.room, grown.grows);
      fits = grown.fits;
      signed = omega (arith, good.signed);
    }

    extended_size : (extended g.meta (offset + len)).size ≡ max p.meta.size (offset + len)
    extended_size = rw grown.meta (ground (arith, good.signed))

    extended_same :
        ((extended g.meta (offset + len)).ino ≡ p.meta.ino)
        × ((extended g.meta (offset + len)).parent_ino ≡ p.meta.parent_ino)
        × ((extended g.meta (offset + len)).type ≡ p.meta.type)
        × ((extended g.meta (offset + len)).mode ≡ p.meta.mode)
    extended_same = rw grown.meta (ground arith)

    copied-IsWritten :
        (k.copy_from_user user len).1 ≡ 0
        → IsWritten p user len offset (copied (extended g.meta (offset + len)))
    unfolding copied stored
    copied-IsWritten all = record {
      regular = reg;
      fits = room;
      size = extended_size;
      range =
          range-splice g.bytes offset len (k.copy_from_user user len).0 (omega (arith, inside))
            (sym (ok_k.length-copy_from_user user len))
          ∙ ok_k.copy_from_user_complete user len all;
      before = λ i h b.
          get_elem?-splice_before g.bytes offset (k.copy_from_user user len).0 i
            (omega (arith, inside)) b
          ∙ kept g grown i h;
      after = λ i h b.
          get_elem?-splice_after g.bytes offset (k.copy_from_user user len).0 i
            (omega (arith, inside)) (omega (arith, ok_k.length-copy_from_user user len))
          ∙ kept g grown i h;
    }

    fill-Wrote : Ensures (Wrote k next p user len offset) (fill k g user len offset (offset + len))
    unfolding fill copied stored
    fill-Wrote =
        let (i, pi, t, m) = extended_same in
        let whole : (offset + len) % 2 ^ 64 ≡ offset + len = omega arith in
        rw (store_bytes-splice g.bytes offset (k.copy_from_user user len).0 inside)
          (elim (Bool-cases ((k.copy_from_user user len).1 == 0)) [
            | inl all ↦ rw all (
              copied-IsPayload (extended g.meta (offset + len)) i (omega (arith, extended_size)),
              record { ino = i; parent_ino = pi; type = t; mode = m; refs = grown.refs },
              whole,
              copied-IsWritten ((==_iff (k.copy_from_user user len).1 0).0 all),
            )
            | inr part ↦ rw part (
              copied-IsPayload g.meta (rw grown.meta refl) (rw grown.meta (omega arith)),
              record {
                ino = rw grown.meta refl;
                parent_ino = rw grown.meta refl;
                type = rw grown.meta refl;
                mode = rw grown.meta refl;
                refs = grown.refs;
              },
              inr (inr (inr (inr (refl, ground arith, grown.meta)))),
            )
          ])

IsSameInode-refl : (p : Payload) → IsSameInode p p
IsSameInode-refl p = record { ino = refl; parent_ino = refl; type = refl; mode = refl; refs = refl }

write_grown-Wrote :
    (k : Kernel) (ok_k : IsDocumented k) (next : ℕ) (p : Payload) (good : IsPayload next p)
    (user : List ℕ) (len offset : ℕ) (room : offset + len < 2 ^ 63)
    (reg : is_file p.meta.type ≡ true) (o : Option Payload)
    → Grown k p (offset + len) o
    → Ensures (Wrote k next p user len offset) (write_grown k p user len offset (offset + len) o)
write_grown-Wrote k ok_k next p good user len offset room reg none g =
    (good, IsSameInode-refl p, inr (inr (inr (inl (refl, g, refl)))))
write_grown-Wrote k ok_k next p good user len offset room reg (some p') g =
    fill-Wrote k ok_k next p good user len offset room reg p' g

-- With a documented kernel, on a payload whose buffer is as long as its capacity and holds its
-- size, a write at an offset below 2 ^ 64 of a length below 2 ^ 63 stays inside the buffer, keeps
-- the payload so, and keeps its number, parent, type, mode and link count. Where it succeeds, the
-- range holds the user's bytes, the size is the larger of the old size and the end of the range,
-- and the file's other bytes stay. Where it is refused the metadata stay and the reason holds: no
-- regular file, an offset from 2 ^ 63 on, an end from 2 ^ 63 on, a krealloc that failed, or a copy
-- that was not complete.
pub write_payload-Wrote :
    (k : Kernel) (ok_k : IsDocumented k) (next : ℕ) (p : Payload) (good : IsPayload next p)
    (user : List ℕ) (len offset : ℕ)
    → offset < 2 ^ 64
    → len < 2 ^ 63
    → Ensures (Wrote k next p user len offset) (write_payload k p user len offset)
unfolding write_payload
write_payload-Wrote k ok_k next p good user len offset ho hl =
    elim (Bool-cases (is_file p.meta.type)) [
      | inr other ↦ rw other (good, IsSameInode-refl p, inl (refl, other, refl))
      | inl reg ↦ elim (Bool-cases (leb (2 ^ 63) offset)) [
        | inl neg ↦
            rw (reg, validate_io_params_lem offset len ho hl, neg, write_payload)
              (good, IsSameInode-refl p, inr (inl (refl, leb→le _ _ neg, refl)))
        | inr valid ↦ elim (Bool-cases (leb (2 ^ 63) (offset + len))) [
          | inl big ↦
              rw (reg, validate_io_params_lem offset len ho hl, valid, big, write_payload)
                (good, IsSameInode-refl p, inr (inr (inl (refl, leb→le _ _ big, refl))))
          | inr fits ↦
              rw (reg, validate_io_params_lem offset len ho hl, valid, fits, write_payload)
                (Ensures-bind (Grown k p (offset + len)) (Wrote k next p user len offset)
                  (grow k p (offset + len)) (write_grown k p user len offset (offset + len))
                  (write_grown-Wrote k ok_k next p good user len offset (ground arith) reg)
                  (grow-Grown k ok_k p (offset + len) good.allocated good.fits (ground arith)))
        ]
      ]
    ]
