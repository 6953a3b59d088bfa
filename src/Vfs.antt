-- ===== src/Vfs.antt =====
-- kernel/vfs.c, the virtual file system, over the node type of include/kernel/vfs.h.
-- Vfs/Node: nodes, flags, error numbers and the state. Vfs/Lookup: path resolution. Vfs/Files:
-- the descriptor table with open, read, write, seek and close. Vfs/Dirs: creation, removal,
-- listing, mounting. The modules below those prove what the operations do.
pub mod Node
pub mod Lookup
pub mod Create
pub mod Files
pub mod Dirs
mod Tests
