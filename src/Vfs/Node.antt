-- ===== src/Vfs/Node.antt =====
-- The nodes of include/kernel/vfs.h and the static variables of kernel/vfs.c.
use reta_os.Prelude.{
  ℕ, ◌+◌, ◌-◌, ◌%◌, ◌^◌, Bool, false, not, Option, none, List, [], ◌∷◌, ◌++◌, ltb, ◌==◌,
  if◌then◌else◌, take, drop, length,
}
use reta_os.Prelude.Int.{ℤ, pos, negsuc, is_zero}
use reta_os.Text.{strcmp}
use Prim.Native.Nat.{bit_and}

-- Error numbers
abbrev pub enoent : ℕ
enoent = 2

abbrev pub eio : ℕ
eio = 5

abbrev pub ebadf : ℕ
ebadf = 9

abbrev pub enomem : ℕ
enomem = 12

abbrev pub eacces : ℕ
eacces = 13

abbrev pub eexist : ℕ
eexist = 17

abbrev pub enotdir : ℕ
enotdir = 20

abbrev pub eisdir : ℕ
eisdir = 21

abbrev pub einval : ℕ
einval = 22

abbrev pub emfile : ℕ
emfile = 24

abbrev pub erofs : ℕ
erofs = 30

abbrev pub enametoolong : ℕ
enametoolong = 36

abbrev pub enotempty : ℕ
enotempty = 39

-- Bits of `flags`
abbrev pub s_ifmt : ℕ
s_ifmt = 0o170000

abbrev pub s_iflnk : ℕ
s_iflnk = 0o120000

abbrev pub s_ifdir : ℕ
s_ifdir = 0o40000

abbrev pub ft_dir : ℕ
ft_dir = s_ifdir

-- Open flags
abbrev pub o_rdonly : ℕ
o_rdonly = 0x0000

abbrev pub o_wronly : ℕ
o_wronly = 0x0001

abbrev pub o_rdwr : ℕ
o_rdwr = 0x0002

abbrev pub o_accmode : ℕ
o_accmode = 0x0003

abbrev pub o_creat : ℕ
o_creat = 0x0100

abbrev pub o_excl : ℕ
o_excl = 0x0200

abbrev pub o_trunc : ℕ
o_trunc = 0x0400

abbrev pub o_append : ℕ
o_append = 0x0800

abbrev pub path_max : ℕ
path_max = 4096

abbrev pub max_open_files : ℕ
max_open_files = 32

-- `x & mask` as a truth value
abbrev pub any_of : ℕ → ℕ → Bool
any_of x mask = not (bit_and x mask == 0)

abbrev pub is_dir : ℕ → Bool
is_dir mode = bit_and mode s_ifmt == s_ifdir

abbrev pub is_lnk : ℕ → Bool
is_lnk mode = bit_and mode s_ifmt == s_iflnk

abbrev pub u32 : ℕ → ℕ
u32 n = n % 2 ^ 32

-- A 32-bit pattern read as an `int`.
abbrev pub to_int : ℕ → ℤ
to_int n = if ltb n (2 ^ 31) then pos n else negsuc (2 ^ 32 - n - 1)

-- 0 is NULL.
abbrev pub Ptr : Type 0
Ptr = ℕ

-- `vfs_dirent_t`
pub record Dirent : Type 0 where
  pub name : List ℕ
  pub size : ℕ
  pub is_dir : Bool

abbrev pub no_dirent : Dirent
no_dirent = record { name = []; size = 0; is_dir = false }

-- The file operations of a node, as functions of the other arguments: they may use the private
-- data of the node, which no code of kernel/vfs.c reads. `none` is a NULL function pointer.
-- `read` gives its result and the bytes put into the buffer; `finddir` what it returns and the
-- pointer that it stores through its last argument, if it stores one.
pub record FileOps : Type 0 where
  pub read : Option (ℕ → ℕ → ℤ × List ℕ)
  pub write : Option (ℕ → List ℕ → ℤ)
  pub open_node : Option (ℕ → ℤ)
  pub close_node : Option ℤ
  pub readdir : Option (ℕ → Dirent)
  pub finddir : Option (List ℕ → ℤ × Option Ptr)
  pub lseek : Option (ℤ → ℕ → ℤ)

abbrev pub no_ops : FileOps
no_ops = record {
  read = none;
  write = none;
  open_node = none;
  close_node = none;
  readdir = none;
  finddir = none;
  lseek = none;
}

-- `struct vfs_node`. A name is the bytes before its terminator. `children` is the list that the
-- pointers `children` and `next` spell; it only ever grows at the front. `buffer` is what `data`
-- points to.
pub record Node : Type 0 where
  pub name : List ℕ
  pub size : ℕ
  pub flags : ℕ
  pub ops : FileOps
  pub buffer : Option (List ℕ)
  pub parent : Ptr
  pub children : List Ptr
  pub position : ℕ

abbrev pub zero_node : Node
zero_node = record {
  name = [];
  size = 0;
  flags = 0;
  ops = no_ops;
  buffer = none;
  parent = 0;
  children = [];
  position = 0;
}

-- The nodes in memory, the root node, the descriptor table, and what `kmalloc` gives: for a size the
-- bytes of a new buffer, and the addresses that it returns for the next nodes (`none` and 0: NULL).
pub record Vfs : Type 0 where
  pub nodes : Ptr → Node
  pub root : Node
  pub open_files : List Node
  pub new_buffer : ℕ → Option (List ℕ)
  pub new_nodes : ℕ → Ptr

abbrev pub same_name : List ℕ → List ℕ → Bool
same_name a b = is_zero (strcmp a b)

-- `name[0]`, as a truth value
abbrev pub named : Node → Bool
named n = elim (n.name) [ [] ↦ false | c ∷ cs ↦ not (c == 0) ]

-- `memcpy(buf + offset, bytes, ...)` within a buffer
abbrev pub write_at : List ℕ → ℕ → List ℕ → List ℕ
write_at buf offset bytes = take offset buf ++ (bytes ++ drop (offset + length bytes) buf)
