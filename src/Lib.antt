-- ===== src/Lib.antt =====
-- Verification of vtfs, a file system as a kernel module of Linux.
--
-- The program has three layers. The kernel calls the functions of source/vtfs.c, which call the
-- table of storage operations of source/vtfs_interface.h. Two storages fill the table: the one in
-- source/impl/ram/vtfs_ram_impl.c keeps all nodes in kernel memory, and the one in
-- source/impl/net sends every operation to a server through source/http.c.
--
-- Base has the shared helpers: lists and tests on native numbers, runs of code that dereferences
-- pointers (`Run`, which ends with a value or faults), masks and fields of bits, and buffers.
-- Interface has the types of vtfs_interface.h, and in Interface/IoParams `vtfs_validate_io_params`
-- of vtfs.c, which both layers call.
--
-- Ram is vtfs_ram_impl.c. Its state (Ram/State) is the superblock's `s_fs_info` and a heap of
-- payloads by address, since hard links share payloads and count references to them; the linked
-- list of nodes is a list whose nodes carry their addresses. Ram/Find has the searches, Ram/Payload
-- the reference counts, Ram/Mount `init`, `shutdown` and `get_root`, Ram/Entries and Ram/Links the
-- operations on names, and Ram/Content `read` and `write`. An operation `vtfs_ram_storage_x` is a
-- function `x` on the superblock, made from a body on a mounted storage. An access through a null
-- or freed pointer, or past the end of a buffer, is a fault, so that a theorem that gives a result
-- shows that there is none. What an allocation returns is an argument, 0 where it fails; krealloc, copy_from_user and
-- copy_to_user are the fields of `Kernel`, and `IsDocumented` is what the kernel documents of them.
-- Ram/WellFormed is the invariant, Ram/View what a client can tell of a storage: the inode number of
-- a name, and the payload of an inode number. Ram/Laws states each operation on that view, errors
-- included, and Ram/Safety any sequence of calls.
--
-- Vfs is vtfs.c. Vfs/Files has read, write and llseek on open files over a record of storage
-- operations, which Vfs/Files/OnRam fills with those of Ram. Vfs/Dentries has the functions on
-- inodes, directory entries and the superblock: Names (vtfs_lookup, vtfs_create, vtfs_unlink,
-- vtfs_mkdir, vtfs_rmdir, vtfs_link), Listing (vtfs_iterate) and Mount (vtfs_fill_super,
-- vtfs_kill_sb, vtfs_init), over a record of the operations on names that OnRam and OnNet fill. Its
-- state is the inodes in memory by address and the storage's state. Both tables of the source have
-- all operations, so that the tests for NULL entries are left out.
--
-- Net is the server's storage. Net/Base64 (source/impl/net/base64.c), Net/Decode
-- (source/impl/net/decode.c) and Net/Encode (`encode` of source/http.c) are its formats. Net/Http is
-- the rest of http.c: Request (fill_request), Sockets (receive_all), Response
-- (parse_http_response) and Call (vtfs_http_call), over a record `Kernel` of the socket functions
-- and allocations on a state of the machine. The memory that an answer is parsed in is the whole
-- block that kmalloc gave, with what stands after the received bytes. Net/Storage is
-- source/impl/net/vtfs_net_impl.c: Mount (init, shutdown, get_root), Entries (the operations on
-- names), Content (read) and Write, over a record `Host` with the HTTP call, which
-- Net/Storage/OnHttp fills with vtfs_http_call. A return value is the bit pattern of the `int` or
-- `ssize_t`, since the operations hand on whatever numbers the server sends; an out parameter that
-- a call leaves unset is none, and reading it is a fault.
--
-- Machine words are native numbers below their bound: 64-bit words keep their wrap-around with
-- % 2 ^ 64, the reference count with % 2 ^ 32, and a signed word is its bit pattern. Loops on lists
-- are structural recursion. Three loops run on fuel and fault without it: the headers of a response,
-- with fuel for each byte of the block and two more; receive_all, with fuel for each byte of the
-- buffer and one more; and the chunks of a write, with fuel for each byte and one more. The `int`
-- counter of receive_all wraps at 2 ^ 31. The fuel is enough in the second for every buffer shorter
-- than that and every answer of the kernel, and in the third for every server that reports at most
-- the bytes of a chunk; a server that reports more makes the count of the remaining bytes wrap
-- around in the source, and the model may end with a fault there.
--
-- Not modelled: vtfs_mount and vtfs_exit, which only call the kernel and print, the module's
-- parameters and the other objects of the kernel behind an inode or a dentry. The kernel's locking
-- is not modelled either: calls run one after another. A request that kernel_sendmsg sends only in
-- part counts as sent, as in the source.
pub mod Base
pub mod Interface
pub mod Ram
pub mod Net
pub mod Vfs
pub mod Tests
