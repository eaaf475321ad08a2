-- ===== src/Interface/Defs.antt =====
-- The types and constants of source/vtfs_interface.h.
use os_course_lab.Base.{ℕ, Bool, true, false, List}

-- `unknown v` is a value outside the enumeration, which a cast from the wire can make.
pub data NodeType : Type 0 where
  dir : NodeType
  file : NodeType
  unknown : ℕ → NodeType

-- `t == VTFS_NODE_DIR`
unfoldable pub is_dir : NodeType → Bool
is_dir dir = true
is_dir file = false
is_dir (unknown v) = false

-- `t == VTFS_NODE_FILE`
unfoldable pub is_file : NodeType → Bool
is_file dir = false
is_file file = true
is_file (unknown v) = false

pub record NodeMeta : Type 0 where
  pub ino : ℕ
  pub parent_ino : ℕ
  pub type : NodeType
  pub mode : ℕ
  pub size : ℕ

-- A name is the list of its bytes before the terminator.
pub record Dirent : Type 0 where
  pub name : List ℕ
  pub ino : ℕ
  pub type : NodeType

-- The error codes that the storages answer, each returned with a minus sign.
pub data Errno : Type 0 where
  enoent enomem efault eexist enotdir eisdir einval efbig enotempty eperm : Errno

-- An answer: the value that a successful call returns or writes to its out parameter, or an error.
pub data Result {ℓ} (A : Type ℓ) : Type ℓ where
  ok : A → Result A
  err : Errno → Result A

abbrev pub root_ino : ℕ
root_ino = 1000

-- NAME_MAX of linux/limits.h
abbrev pub name_max : ℕ
name_max = 255
