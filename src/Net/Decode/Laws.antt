-- ===== src/Net/Decode/Laws.antt =====
-- What the decoder reads from the server's format.
use os_course_lab.Base.{
  ℕ, zero, suc, ◌+◌, ◌-◌, ◌%◌, ◌^◌, ◌≤◌, ◌<◌, ◌≡◌, refl, ap, ◌∙◌, true, false, List, [], ◌∷◌, ◌++◌,
  done, leb, ◌==◌, arith, length, take, replicate, length-append, take-append_left,
  length-replicate,
}
use os_course_lab.Base.Buffers.{load_bytes}
use os_course_lab.Interface.{NodeMeta, Dirent}
use os_course_lab.Net.Decode.{load_le, node_type, parse_node_meta, c_string, parse_dirent}
use os_course_lab.Net.Decode.Fields.{
  le_bytes, load_le-here, load_le-last, load_le-skip, load_le-past, type_code, IsWireType,
  node_type-type_code,
}

-- The server's format of the metadata.
unfoldable pub node_meta_bytes : NodeMeta → List ℕ
node_meta_bytes m =
    le_bytes 8 m.ino
    ++ (le_bytes 8 m.parent_ino
        ++ (le_bytes 2 (type_code m.type) ++ (le_bytes 4 m.mode ++ le_bytes 8 m.size)))

-- The metadata that the format and the structure can hold.
pub record IsWireMeta (m : NodeMeta) : Type 0 where
  pub ino : m.ino < 2 ^ 64
  pub parent_ino : m.parent_ino < 2 ^ 64
  pub type : IsWireType m.type
  pub mode : m.mode < 2 ^ 16
  pub size : m.size < 2 ^ 64

parse_node_meta-fields :
    (input : List ℕ) (m : NodeMeta) (type mode : ℕ)
    → load_le input 0 8 ≡ done m.ino
    → load_le input 8 8 ≡ done m.parent_ino
    → load_le input 16 2 ≡ done type
    → load_le input 18 4 ≡ done mode
    → load_le input 22 8 ≡ done m.size
    → node_type type ≡ m.type
    → mode % 2 ^ 16 ≡ m.mode
    → parse_node_meta input ≡ done m
unfolding parse_node_meta
parse_node_meta-fields input m type mode ino parent_ino t mo size t' mo' =
    rw (ino, parent_ino, t, mo, size, t', mo') refl

-- Metadata that the format and the structure can hold (numbers and size below 2 ^ 64, a mode of 16
-- bits, a type of 16 bits) are read back as they are from the server's 30 bytes, without a read
-- past them.
pub parse_node_meta-node_meta_bytes :
    (m : NodeMeta) → IsWireMeta m → parse_node_meta (node_meta_bytes m) ≡ done m
unfolding node_meta_bytes
parse_node_meta-node_meta_bytes m w =
    let size = le_bytes 8 m.size in
    let mode = le_bytes 4 m.mode ++ size in
    let type = le_bytes 2 (type_code m.type) ++ mode in
    let parent = le_bytes 8 m.parent_ino ++ type in
    let (named, small) = node_type-type_code m.type w.type in
    let at_ino = load_le-here 8 m.ino parent w.ino in
    let at_parent : load_le (le_bytes 8 m.ino ++ parent) 8 8 ≡ done m.parent_ino =
      load_le-past 8 m.ino parent 0 8 8 refl ∙ load_le-here 8 m.parent_ino type w.parent_ino in
    let at_type : load_le (le_bytes 8 m.ino ++ parent) 16 2 ≡ done (type_code m.type) =
      load_le-past 8 m.ino parent 8 16 2 refl
      ∙ load_le-past 8 m.parent_ino type 0 8 2 refl
      ∙ load_le-here 2 (type_code m.type) mode small in
    let at_mode : load_le (le_bytes 8 m.ino ++ parent) 18 4 ≡ done m.mode =
      load_le-past 8 m.ino parent 10 18 4 refl
      ∙ load_le-past 8 m.parent_ino type 2 10 4 refl
      ∙ load_le-past 2 (type_code m.type) mode 0 2 4 refl
      ∙ load_le-here 4 m.mode size (omega (arith, w.mode)) in
    let at_size : load_le (le_bytes 8 m.ino ++ parent) 22 8 ≡ done m.size =
      load_le-past 8 m.ino parent 14 22 8 refl
      ∙ load_le-past 8 m.parent_ino type 6 14 8 refl
      ∙ load_le-past 2 (type_code m.type) mode 4 6 8 refl
      ∙ load_le-past 4 m.mode size 0 4 8 refl
      ∙ load_le-last 8 m.size w.size in
    let kept : m.mode % 2 ^ 16 ≡ m.mode = omega (arith, w.mode) in
    parse_node_meta-fields (le_bytes 8 m.ino ++ parent) m (type_code m.type) m.mode at_ino at_parent
      at_type at_mode at_size named kept

-- The server's format of an entry: the name in 256 bytes, filled up with zeros.
unfoldable pub dirent_bytes : Dirent → List ℕ
dirent_bytes d =
    (d.name ++ replicate (256 - length d.name) 0)
    ++ (le_bytes 8 d.ino ++ le_bytes 2 (type_code d.type))

abbrev pub HasNoZero : List ℕ → Type 0
HasNoZero [] = Unit
HasNoZero (b ∷ bs) = (0 < b) × HasNoZero bs

c_string-filled : (s : List ℕ) (k : ℕ) → HasNoZero s → c_string (s ++ replicate k 0) ≡ s
unfolding c_string
c_string-filled [] zero h = refl
c_string-filled [] (suc k) h = refl
c_string-filled (b ∷ s) k h =
    let nz : (b == 0) ≡ false = ground (arith, h.0) in rw (nz, c_string-filled s k h.1) refl

take-filled :
    (s : List ℕ) (k k' n : ℕ)
    → length s + k' ≡ n
    → k' ≤ k
    → take n (s ++ replicate k 0) ≡ s ++ replicate k' 0
take-filled [] k zero zero e le = refl
take-filled [] k zero (suc n) e le = absurd (omega arith)
take-filled [] k (suc k') zero e le = absurd (omega arith)
take-filled [] zero (suc k') (suc n) e le = absurd (omega arith)
take-filled [] (suc k) (suc k') (suc n) e le =
    ap (λ t. 0 ∷ t) (take-filled [] k k' n (omega arith) (omega arith))
take-filled (b ∷ s) k k' zero e le = absurd (omega arith)
take-filled (b ∷ s) k k' (suc n) e le = ap (λ t. b ∷ t) (take-filled s k k' n (omega arith) le)

-- The entries that the format and the structure can hold.
pub record IsWireDirent (d : Dirent) : Type 0 where
  pub name : HasNoZero d.name
  pub short : length d.name ≤ 255
  pub ino : d.ino < 2 ^ 64
  pub type : IsWireType d.type

parse_dirent-fields :
    (input name : List ℕ) (d : Dirent) (type : ℕ)
    → load_bytes input 0 255 ≡ done name
    → load_le input 256 8 ≡ done d.ino
    → load_le input 264 2 ≡ done type
    → c_string name ≡ d.name
    → node_type type ≡ d.type
    → parse_dirent input ≡ done d
unfolding parse_dirent
parse_dirent-fields input name d type n ino t n' t' = rw (n, ino, t, n', t') refl

-- The part of the name that is copied.
load_bytes-take :
    (xs rest : List ℕ) (n : ℕ) → n ≤ length xs → load_bytes (xs ++ rest) 0 n ≡ done (take n xs)
unfolding load_bytes
load_bytes-take xs rest n h =
    let fits : leb (0 + n) (length (xs ++ rest)) ≡ true = ground (arith, length-append xs rest) in
    rw (fits, take-append_left n xs rest h) refl

-- An entry that the format and the structure can hold (a name of at most 255 bytes without a zero,
-- a number below 2 ^ 64, a type of 16 bits) is read back as it is from the server's 266 bytes,
-- without a read past them.
pub parse_dirent-dirent_bytes :
    (d : Dirent) → IsWireDirent d → parse_dirent (dirent_bytes d) ≡ done d
unfolding dirent_bytes
parse_dirent-dirent_bytes d w =
    let field = d.name ++ replicate (256 - length d.name) 0 in
    let type = le_bytes 2 (type_code d.type) in
    let tail = le_bytes 8 d.ino ++ type in
    let (named, small) = node_type-type_code d.type w.type in
    let whole : length field ≡ 256 = omega (
      arith,
      length-append d.name (replicate (256 - length d.name) 0),
      length-replicate {A = ℕ} (256 - length d.name) 0,
      w.short,
    ) in
    let at_ino : load_le (field ++ tail) 256 8 ≡ done d.ino =
      load_le-skip field tail 0 256 8 (omega (arith, whole)) ∙ load_le-here 8 d.ino type w.ino in
    let at_type : load_le (field ++ tail) 264 2 ≡ done (type_code d.type) =
      load_le-skip field tail 8 264 2 (omega (arith, whole))
      ∙ load_le-past 8 d.ino type 0 8 2 refl
      ∙ load_le-last 2 (type_code d.type) small in
    parse_dirent-fields (field ++ tail) (take 255 field) d (type_code d.type)
      (load_bytes-take field tail 255 (omega (arith, whole))) at_ino at_type
      (ap c_string (
          take-filled d.name (256 - length d.name) (255 - length d.name) 255
            (omega (arith, w.short)) (omega arith))
        ∙ c_string-filled d.name (255 - length d.name) w.name)
      named
