-- ===== src/Lib.antt =====
-- RetaOS, a small operating system for 32-bit x86: models of the parts of its kernel that manage
-- memory, strings, files, threads, keys and the text screen, and of the printing functions of its C
-- library, with theorems on them.
--
-- The parts and the files that model them:
-- - Frames: memory/pmm.c, the allocator of physical frames of 4 KB. A frame is a bit of `bitmap`; the
--   functions are `pmm_init`, `pmm_init_basic`, `pmm_init_default`, `pmm_mark_used_region`,
--   `pmm_alloc_frame`, `pmm_free_frame` and their helpers. A run outside the bitmap gives `none`.
-- - Heap: kernel/kheap.c, the kernel heap: `kmalloc`, `kfree`, `krealloc`, `kcalloc`, `kmalloc_a`,
--   `kmalloc_ap` on the list of block headers, which the state keeps in the order of their `next`
--   pointers together with the bounds of the heap. Block contents are left out.
-- - Text: kernel/string.c, with `strcasecmp` of fs/fat32.c and `strtok_r` of kernel/vfs.c. A `char*` is
--   the list of the bytes from it on, up to the terminator.
-- - Vfs: kernel/vfs.c over include/kernel/vfs.h, the virtual file system. Vfs/Node has the nodes and
--   the state: the nodes by address, the root, the table of 32 open files, and what `kmalloc` will
--   return. Vfs/Lookup is `vfs_lookup`, Vfs/Create is `vfs_create`, Vfs/Files is what works on
--   descriptors, Vfs/Dirs is what works on directories, and mounting.
-- - Sched: kernel/sched.c and kernel/thread.c over kernel/thread.h. The threads stand in a store by
--   address, so that the ready queue and the list of all threads share the `next` fields as they do in
--   the code; the static variables of both files are the other fields of the state. Sched/Chains is
--   about lists of threads, Sched/Yield about the order in which they run, Sched/Sleep and
--   Sched/Wake about sleeping threads, Sched/Threads about kernel/thread.c, Sched/Switch about the
--   rest of both files.
-- - Keyboard: drivers/keyboard/keyboard.c, the ring of key codes and the handler of scan codes with its
--   modifiers. Keyboard/Ring reads the ring as a queue, Keyboard/Keys is about the handler.
-- - Block: kernel/block.c, the table of block devices; their read functions are arguments.
-- - Fat32: fs/fat32.c with fs/fat32_vfs.c, the driver for FAT32 file systems. A disk is a function from
--   a first sector and a count to the bytes. Fat32/Init is `fat32_init` with the boot sector and the
--   table of clusters, and `fat32_cleanup`; Fat32/Entry decodes directory entries; Fat32/Dir is
--   `fat32_find_entry` and `fat32_readdir_index`; Fat32/File is `fat32_read_file_data`; Fat32/Nodes are
--   the nodes and their functions that the virtual file system calls.
-- - Initrd: kernel/initrd.c, the initial RAM disk: the headers of the tar archive, the walk over it in
--   `mount_initrd`, `ensure_dir`, `tar_read` and `initrd_mount_from_block`, over a store of nodes;
--   Initrd/Mount has the walk and what calls it.
-- - Elf: kernel/elf.c, the loader of programs, `elf_exec` and `elf_load` over the virtual file system.
-- - Process: kernel/process.c, the table of processes: creation, exit, scheduling, and `process_exec`
--   over the loader in Process/Exec.
-- - FileTable: kernel/fs.c, the list of file systems and a table of open files of its own.
-- - Syscalls: kernel/syscalls.c, the table of system calls, and what the calls do over Process, Elf and
--   Vfs and with the keys that are typed.
-- - Console: kernel/console.c and kernel/console_utils.c, the text screen of 80 by 25 cells.
--   Console/Scroll is about the loops over the lines, Console/Screen about characters and strings,
--   Console/Print has the numbers and `console_vprintf`, Console/Calls is about sequences of calls.
-- - Libc: libc/src/stdio.c, ctype.c, `atoi` of stdlib.c and `strtok` of string.c: `vsnprintf` in Libc
--   with Libc/Bounded, `vprintf` in Libc/Printf, `atoi` in Libc/Numbers, `strtok` in Libc/Strings.
--   Text/Expand and Text/Meaning say what text a format makes of its arguments, for the console and
--   this library; Text/Numerals has the digits of numbers.
-- - Prelude: the names that all share: lists and bits over native numbers, signed results.
--
-- How the parts interact: the virtual file system uses the string functions, which Vfs takes from Text,
-- and the heap, of which it uses only addresses and buffers: the state of Vfs lists those that
-- `kmalloc` is going to return, so that no theorem of Vfs depends on how the heap works. The file
-- operations of a mounted file system stand in its nodes as functions; they are arguments of every
-- theorem.
--
-- Numbers: an unsigned 32-bit value is a natural number, with the wrap-around written out where the
-- code adds or subtracts. A result that can be negative is an integer, where an error number `e` is
-- returned as `minus e`.
--
-- Bounds and fuel: loops over lists, frames and components are structural. Fuel is taken by
-- `lookup`, for chains of symbolic links, since links may form a cycle on which the code does not
-- return, `has_entries`, for the reading loop of `vfs_rmdir`, whose end a mounted file system
-- decides, and the searches of Sched, whose lists may be cyclic, and the walks over chains of
-- clusters of Fat32, which the table of a damaged disk can make endless. `fat32_init` gives its reading
-- loop one round more than there are sectors. The walk of Initrd takes fuel, since the offset wraps
-- modulo 2^32, and so does `map_pages` of Elf, whose address wraps too. Where the fuel runs out the
-- result is `none` or `unfinished`; a lookup that meets no link needs one unit. `tokens_from`
-- takes the length of the string and one more, and every call that finds a token shortens what is
-- left.
-- The digits of a word take ten rounds in decimal and eight in hexadecimal, and the arrays of the
-- printing loops are longer.
--
-- Not modelled: boot code, descriptor tables, interrupts and paging (assembly and hardware state), the
-- other drivers, the display, splash and debug output, the shell, the system calls, the heap and
-- the other string functions of the C library, and the user programs.
pub mod Prelude
pub mod Frames
pub mod Heap
pub mod Text
pub mod Vfs
pub mod Sched
pub mod Keyboard
pub mod Block
pub mod Fat32
pub mod Elf
pub mod Initrd
pub mod Process
pub mod FileTable
pub mod Syscalls
pub mod Console
pub mod Libc
