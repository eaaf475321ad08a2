-- ===== src/Net/Decode.antt =====
-- source/impl/net/decode.c: the structures that the server sends, in little-endian order.
pub mod Fields
pub mod Laws
pub mod More
use os_course_lab.Base.{
  ℕ, zero, suc, ◌+◌, ◌*◌, ◌%◌, ◌^◌, List, [], ◌∷◌, Run, done, fault, ◌>>=◌, ◌==◌, if◌then◌else◌,
  take,
}
use os_course_lab.Base.Buffers.{load_bytes}
use os_course_lab.Interface.{NodeType, dir, file, unknown, NodeMeta, Dirent}

-- `le16_to_cpu` and its like
unfoldable pub le_value : List ℕ → ℕ
le_value [] = 0
le_value (b ∷ bs) = b + 256 * le_value bs

-- `memcpy` of a field and its conversion
unfoldable pub load_le : List ℕ → (at n : ℕ) → Run ℕ
load_le response at n = do bytes ← load_bytes response at n; done (le_value bytes)

-- `(enum vtfs_node_type)v`
unfoldable pub node_type : ℕ → NodeType
node_type v = if v == 0 then dir else if v == 1 then file else unknown v

-- What is written to `*out`; `mode` goes into a 16-bit `umode_t`. The call returns 0.
unfoldable pub parse_node_meta : List ℕ → Run NodeMeta
parse_node_meta response = do
  ino ← load_le response 0 8
  parent_ino ← load_le response 8 8
  type ← load_le response 16 2
  mode ← load_le response 18 4
  size ← load_le response 22 8
  done (record {
    ino = ino;
    parent_ino = parent_ino;
    type = node_type type;
    mode = mode % 2 ^ 16;
    size = size;
  })

-- The bytes before the first terminator
unfoldable pub c_string : List ℕ → List ℕ
c_string [] = []
c_string (b ∷ bs) = let rest = c_string bs in if b == 0 then [] else b ∷ rest

unfoldable pub parse_dirent : List ℕ → Run Dirent
parse_dirent response = do
  name ← load_bytes response 0 255
  ino ← load_le response 256 8
  type ← load_le response 264 2
  done (record { name = c_string name; ino = ino; type = node_type type })
