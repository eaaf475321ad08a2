-- ===== src/Vfs/Files/Reads.antt =====
-- `vtfs_read` over the storage in memory.
use os_course_lab.Base.{ℕ, ◌+◌, ◌≡◌, ◌⊎◌, Option, none, some, List, [], length, take, drop}
use os_course_lab.Interface.{Result, ok, err}
use os_course_lab.Ram.State.{Payload, Ram, Super}
use os_course_lab.Ram.Content
use os_course_lab.Ram.View.{inode}
use os_course_lab.Ram.Laws.Read.{content}
use os_course_lab.Vfs.Files.{File, Moved, Called}
use os_course_lab.Vfs.Files.OnRam.{mounted, position, written_to}

-- The bytes of the inode in the range.
abbrev pub range_of : Option Payload → (offset len : ℕ) → List ℕ
range_of none offset len = []
range_of (some p) offset len = take len (drop offset (content p))

-- `*offset` after a read of a number of bytes: it is written for a positive number alone.
abbrev pub ReadMoves : File → Option ℕ → (len : ℕ) → Ram → Result Moved → Called → Type 0
ReadMoves f offset len r (err e) c = (c.file ≡ f) × (c.offset ≡ offset)
ReadMoves f offset len r (ok m) c =
    (m.bytes ≡ range_of (inode r f.i_ino) (position offset f) len)
    × (m.count ≡ length m.bytes)
    × (((m.count ≡ 0) × (c.file ≡ f) × (c.offset ≡ offset))
        ⊎ ((c.file ≡ record f { f_pos = position offset f + m.count })
            × (c.offset ≡ written_to offset (position offset f + m.count))))

abbrev pub ReadFile : File → Option ℕ → (len : ℕ) → Ram → Called × Super → Type 0
ReadFile f offset len r (c, sb') = (sb' ≡ mounted r) × ReadMoves f offset len r c.answer c
