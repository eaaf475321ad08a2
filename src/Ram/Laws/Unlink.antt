-- ===== src/Ram/Laws/Unlink.antt =====
-- `unlink`.
use os_course_lab.Base.{
  ℕ, ◌≡◌, ◌⊎◌, refl, inl, inr, Bool, true, false, not, Option, none, some, List, [], ◌∷◌, arith,
  ◌==◌, Option-cases, Bool-cases, Ensures,
}
use os_course_lab.Interface.{Result, ok, err, enoent, eperm, is_dir, is_file}
use os_course_lab.Ram.State.{null, Payload, Node, Ram}
use os_course_lab.Ram.Find.{find_child, is_child}
use os_course_lab.Ram.Entries.{unlink_node, unlink_body, take_out}
use os_course_lab.Ram.WellFormed.{IsWellFormed}
use os_course_lab.Ram.WellFormed.Lists.{All, Removed, take_out-Taken}
use os_course_lab.Ram.WellFormed.Remove.{
  IsWellFormed-Covers, NotInside, dropped-IsWellFormed, remove_node-dropped, links-pos,
}
use os_course_lab.Ram.WellFormed.Search.{load-linked}
use os_course_lab.Ram.View.{inode, entry, inode-some}
use os_course_lab.Ram.Laws.Remove.{IsRemoved, left-IsRemoved, named-Removed}

pub All-miss :
    (ns : List Node) (parent : ℕ) (name : List ℕ)
    → All (λ n. is_child parent name n ≡ false) ns
    → find_child ns parent name ≡ none
unfolding find_child
All-miss [] parent name h = refl
All-miss (n ∷ ns) parent name h = rw h.0 (All-miss ns parent name h.1)

All-outside : (p : Payload) (ns : List Node) → is_file p.meta.type ≡ true → All (NotInside p) ns
All-outside p [] e = tt
All-outside p (n ∷ ns) e = (inl (unfold is_dir is_file in ground arith), All-outside p ns e)

-- Nothing, or an inode that is no regular file.
abbrev pub not_file : Option Payload → Bool
not_file none = true
not_file (some p) = not (is_file p.meta.type)

abbrev pub Unlinked : ℕ → List ℕ → Ram → Result (Unit {0}) × Ram → Type 0
Unlinked parent name r (ok _, r') =
    (p : Payload) × IsWellFormed r' × (is_file p.meta.type ≡ true) × IsRemoved p parent name r r'
Unlinked parent name r (err e, r') =
    (r' ≡ r)
    × (((e ≡ enoent) × (entry r parent name ≡ none))
        ⊎ ((e ≡ eperm)
            × (ino : ℕ) × (entry r parent name ≡ some ino)
            × (not_file (inode r ino) ≡ true)))

module _ (r : Ram) (parent : ℕ) (name : List ℕ) (w : IsWellFormed r) where
  unlink_node-Unlinked :
      (n : Node) (rest : List Node)
      → is_child parent name n ≡ true
      → Removed n r.nodes_head rest
      → Ensures (Unlinked parent name r) (unlink_node r n rest)
  unlink_node-Unlinked n rest hit gone =
      let (p, at, loads, nn) =
        load-linked r.heap n.payload (IsWellFormed-Covers w) (links-pos gone) in
      let nz : (n.payload == null) ≡ false = ground arith in
      rw (nz, loads)
        (elim (Bool-cases (is_file p.meta.type)) [
          | inl reg ↦
              let out = All-outside p rest reg in
              rw (reg, remove_node-dropped r w n rest gone p at)
                (
                  p,
                  dropped-IsWellFormed r w n rest gone p at out,
                  reg,
                  left-IsRemoved r w n rest gone p at parent name hit out,
                )
          | inr other ↦ rw other (
            refl,
            inr (
              refl,
              p.meta.ino,
              named-Removed r w n p parent name gone at hit,
              rw (inode-some r w n.payload p at, other),
            ),
          )
        ])

  -- On a well-formed storage an unlink never faults. It takes the name of a regular file away and
  -- drops one link of its inode, which goes with the last link, changes no other name and no other
  -- inode, and keeps the storage well formed; or it changes nothing, since there is no such name
  -- or it is no regular file's.
  pub unlink_body-Unlinked : Ensures (Unlinked parent name r) (unlink_body parent name r)
  unfolding unlink_body
  unlink_body-Unlinked = elim (Option-cases (take_out (is_child parent name) r.nodes_head)) [
    | inl e ↦
        let misses = rw e at (take_out-Taken (is_child parent name) r.nodes_head) in
        rw (e, unlink_body)
          (refl, inl (refl, unfold entry in rw (All-miss r.nodes_head parent name misses)))
    | inr ((n, rest), e) ↦
        let (hit, gone) = rw e at (take_out-Taken (is_child parent name) r.nodes_head) in
        rw (e, unlink_body) (unlink_node-Unlinked n rest hit gone)
  ]
