-- ===== src/Ram/Laws/Iterate.antt =====
-- `iterate_dir`: the entries of a directory, one at each offset.
use os_course_lab.Base.{
  ap, ℕ, zero, suc, ◌+◌, ◌^◌, ◌%◌, ◌<◌, ◌≤◌, ◌≡◌, refl, inl, inr, true, false, ◌⊎◌, Option, none,
  some, List, [], ◌∷◌, arith, ◌==◌, if◌then◌else◌, done, Option-cases, Bool-cases, length,
  get_elem?, take, take_all,
}
use os_course_lab.Interface.{Dirent, Result, ok, err, enoent, name_max}
use os_course_lab.Ram.State.{null, Payload, Node, Heap, Ram}
use os_course_lab.Ram.Find.{find_child, is_child}
use os_course_lab.Ram.Entries.{nth_entry, step_offset, iterate_dir_body}
use os_course_lab.Ram.WellFormed.{IsWellFormed}
use os_course_lab.Ram.WellFormed.Remove.{IsWellFormed-Covers}
use os_course_lab.Ram.WellFormed.Search.{Covers, Covers-tail, load-linked, links-head}
use os_course_lab.Ram.View.{entry, find_child-found}
use os_course_lab.Ram.Laws.Remove.{is_child-eq}

abbrev pub listed : Node → Option Payload → List Dirent → List Dirent
listed n none rest = rest
listed n (some p) rest =
    record { name = take name_max n.name; ino = p.meta.ino; type = p.meta.type } ∷ rest

-- The entries of a directory, the latest first.
unfoldable pub entries_of : Heap → ℕ → List Node → List Dirent
entries_of h dir_ino [] = []
entries_of h dir_ino (n ∷ ns) =
    let rest = entries_of h dir_ino ns in
    if n.parent_ino == dir_ino then listed n (h n.payload) rest else rest

abbrev pub entry_answer : Option Dirent → Result Dirent
entry_answer none = err enoent
entry_answer (some d) = ok d

-- What a listing answers at an offset: the entry there and the offset after it.
abbrev pub listing_answer : Option Dirent → ℕ → Result (Dirent × ℕ)
listing_answer none offset = err enoent
listing_answer (some d) offset = ok (d, offset + 1)

step_offset-listing_answer :
    (o : Option Dirent) (offset : ℕ)
    → ((d : Dirent) → o ≡ some d → offset + 1 < 2 ^ 64)
    → step_offset offset (entry_answer o) ≡ listing_answer o offset
step_offset-listing_answer none offset h = refl
step_offset-listing_answer (some d) offset h =
    let small = h d refl in
    let next : (offset + 1) % 2 ^ 64 ≡ offset + 1 = omega arith in ap (λ n. ok (d, n)) next

get_elem?_inside : (es : List Dirent) (k : ℕ) (d : Dirent) → get_elem? es k ≡ some d → k < length es
get_elem?_inside [] k d e = absurd (ground (arith, e))
get_elem?_inside (a ∷ es) zero d e = omega arith
get_elem?_inside (a ∷ es) (suc k) d e = omega (arith, get_elem?_inside es k d e)

pub length-entries_of :
    (h : Heap) (dir_ino : ℕ) (ns : List Node) → length (entries_of h dir_ino ns) ≤ length ns
unfolding entries_of
length-entries_of h dir_ino [] = omega arith
length-entries_of h dir_ino (n ∷ ns) =
    let rest = length-entries_of h dir_ino ns in
    elim (Bool-cases (n.parent_ino == dir_ino)) [
      | inr outside ↦ rw outside (omega arith)
      | inl inside ↦ elim (Option-cases (h n.payload)) [
        | inl gone ↦ rw (inside, gone) (omega arith)
        | inr (p, there) ↦ rw (inside, there) (omega arith)
      ]
    ]

module _ (h : Heap) (dir_ino : ℕ) where
  nth_entry-eq :
      (ns : List Node) (offset count i : ℕ)
      → Covers h ns
      → offset ≡ count + i
      → count + length ns < 2 ^ 64
      → nth_entry h ns dir_ino offset count
        ≡ done (entry_answer (get_elem? (entries_of h dir_ino ns) i))
  unfolding nth_entry entries_of
  nth_entry-eq [] offset count i c e small = refl
  nth_entry-eq (n ∷ ns) offset count zero c e small =
      let (p, at, loads, nn) = load-linked h n.payload c (links-head n ns) in
      let nz : (n.payload == null) ≡ false = ground arith in
      let now : (count == offset) ≡ true = ground arith in
      elim (Bool-cases (n.parent_ino == dir_ino)) [
        | inr other ↦ rw other (nth_entry-eq ns offset count zero (Covers-tail c) e (omega arith))
        | inl inside ↦ rw (inside, nz, at, now, loads)
      ]
  nth_entry-eq (n ∷ ns) offset count (suc i) c e small =
      let (p, at, loads, nn) = load-linked h n.payload c (links-head n ns) in
      let nz : (n.payload == null) ≡ false = ground arith in
      let word : (count + 1) % 2 ^ 64 ≡ count + 1 = omega arith in
      let later : (count == offset) ≡ false = ground arith in
      elim (Bool-cases (n.parent_ino == dir_ino)) [
        | inr other ↦
            rw other (nth_entry-eq ns offset count (suc i) (Covers-tail c) e (omega arith))
        | inl inside ↦
            rw (inside, nz, at, later, word)
              (nth_entry-eq ns offset (count + 1) i (Covers-tail c) (omega arith) (omega arith))
      ]

-- On a well-formed storage with fewer than 2 ^ 64 nodes, `iterate_dir` never faults and changes
-- nothing, and answers the entry of the directory's list of entries at the offset, with the offset
-- plus one, or ENOENT past the last entry.
pub iterate_dir_body-entries_of :
    (r : Ram) (dir_ino offset : ℕ)
    → IsWellFormed r
    → length r.nodes_head < 2 ^ 64
    → iterate_dir_body dir_ino offset r
      ≡ done (listing_answer (get_elem? (entries_of r.heap dir_ino r.nodes_head) offset) offset, r)
unfolding iterate_dir_body
iterate_dir_body-entries_of r dir_ino offset w small =
    let es = entries_of r.heap dir_ino r.nodes_head in
    let few = length-entries_of r.heap dir_ino r.nodes_head in
    rw
      (nth_entry-eq r.heap dir_ino r.nodes_head offset 0 offset (IsWellFormed-Covers w)
        (omega arith) (omega arith))
      (ap (λ (a : Result (Dirent × ℕ)). done (a, r))
        (step_offset-listing_answer (get_elem? es offset) offset
          λ d found. omega (arith, few, get_elem?_inside es offset d found)))

-- Some entry of the list has the name and the number.
abbrev pub Lists : List Dirent → List ℕ → ℕ → Type 0
Lists [] name ino = ⊥
Lists (d ∷ ds) name ino = ((d.name ≡ name) × (d.ino ≡ ino)) ⊎ Lists ds name ino

entries_of-Lists :
    (h : Heap) (dir_ino : ℕ) (name : List ℕ) (ns : List Node) (n : Node) (p : Payload)
    → Covers h ns
    → length name ≤ name_max
    → find_child ns dir_ino name ≡ some n
    → h n.payload ≡ some p
    → Lists (entries_of h dir_ino ns) name p.meta.ino
unfolding find_child entries_of
entries_of-Lists h dir_ino name [] n p c short found at = absurd (ground arith)
entries_of-Lists h dir_ino name (m ∷ ns) n p c short found at =
    let (b, was, loads, nn) = load-linked h m.payload c (links-head m ns) in
    elim (Bool-cases (is_child dir_ino name m)) [
      | inl hit ↦
          let it : m ≡ n = ground arith in
          let (e, e') = is_child-eq dir_ino name m hit in
          let inside : (m.parent_ino == dir_ino) ≡ true = ground arith in
          let value : b ≡ p = ground (arith, it, was, at) in
          rw (inside, was) (inl (rw e' (take_all name_max name short), ground (arith, value)))
      | inr miss ↦
          let rest =
            entries_of-Lists h dir_ino name ns n p (Covers-tail c) short (ground arith) at in
          elim (Bool-cases (m.parent_ino == dir_ino)) [
            | inl inside ↦ rw (inside, was) (inr rest)
            | inr outside ↦ rw outside rest
          ]
    ]

-- On a well-formed storage, a name within NAME_MAX that has an inode number in a directory is in
-- the directory's list of entries with this number.
pub entry-Lists :
    (r : Ram) (dir_ino : ℕ) (name : List ℕ) (ino : ℕ)
    → IsWellFormed r
    → length name ≤ name_max
    → entry r dir_ino name ≡ some ino
    → Lists (entries_of r.heap dir_ino r.nodes_head) name ino
unfolding entry
entry-Lists r dir_ino name ino w short e =
    elim (Option-cases (find_child r.nodes_head dir_ino name)) [
      | inl absent ↦ absurd (ground (arith, absent, e))
      | inr (n, found) ↦
          let (p, at, loads, nn, named) = find_child-found r w dir_ino name n found in
          let same : p.meta.ino ≡ ino = ground (arith, found, at, e) in
          rw (← same) (
            entries_of-Lists r.heap dir_ino name r.nodes_head n p (IsWellFormed-Covers w) short
              found at)
    ]
