-- ===== src/FileTable.antt =====
-- kernel/fs.c: the types of file systems that are registered, and a table of 32 open files. The
-- operations of a file are arguments of the model, as functions on the file; `kmalloc` is given by the
-- address that it returns.
mod Tests
pub mod Slots
pub mod Types
use reta_os.Prelude.{
  ℕ, zero, suc, ◌+◌, Bool, true, false, not, ◌&&◌, ◌||◌, Option, none, some, List, [], ◌∷◌, ◌==◌,
  leb, if◌then◌else◌, get_or, set, replicate,
}
use reta_os.Prelude.Int.{ℤ, pos, negsuc, minus, is_zero, is_neg}
use reta_os.Text.{strcmp}

-- 0 is NULL.
abbrev pub Ptr : Type 0
Ptr = ℕ

abbrev pub nr_open_default : ℕ
nr_open_default = 32

-- `struct file_system_type` at an address; `has_mount` tells whether it has a function `mount`, and
-- the name is `none` for NULL.
pub record FileSystemType : Type 0 where
  pub address : Ptr
  pub name : Option (List ℕ)
  pub has_mount : Bool

-- `fs->name && fs->mount`
abbrev pub usable : FileSystemType → Bool
usable fs = elim (fs.name) [ none ↦ false | some name ↦ fs.has_mount ]

-- `register_filesystem`, on the list that `file_systems` and the pointers `next` spell; `fs` is not
-- NULL.
unfoldable pub register_filesystem : FileSystemType → List FileSystemType → ℤ × List FileSystemType
register_filesystem fs file_systems =
    if usable fs then (pos 0, fs ∷ file_systems) else (minus 1, file_systems)

-- `unregister_filesystem` of the type at an address.
unfoldable pub unregister_filesystem : Ptr → List FileSystemType → ℤ × List FileSystemType
unregister_filesystem fs [] = (minus 1, [])
unregister_filesystem fs (t ∷ ts) =
    let (ret, rest) = unregister_filesystem fs ts in
    if t.address == fs then (pos 0, ts) else (ret, t ∷ rest)

abbrev pub is_named : List ℕ → FileSystemType → Bool
is_named name t = elim (t.name) [ none ↦ false | some n ↦ is_zero (strcmp n name) ]

-- `get_fs_type`. Only types with a name are ever registered.
unfoldable pub get_fs_type : List FileSystemType → List ℕ → Option FileSystemType
get_fs_type [] name = none
get_fs_type (t ∷ ts) name =
    let rest = get_fs_type ts name in if is_named name t then some t else rest

-- `struct file`, at an address, with the functions of its `f_ops`; `none` is a NULL pointer.
pub record File : Type 0 where
  pub fd : ℕ
  pub flags : ℕ
  pub pos : ℕ
  pub read : Option (ℕ → ℕ → ℤ × List ℕ × ℕ)
  pub write : Option (ℕ → List ℕ → ℤ × ℕ)
  pub release : Bool
  pub llseek : Option (ℤ → ℕ → ℤ)

abbrev pub zero_file : File
zero_file = record {
  fd = 0;
  flags = 0;
  pos = 0;
  read = none;
  write = none;
  release = false;
  llseek = none;
}

-- `fd_table`, the files by address, and the addresses that were freed and released so far.
pub record Files : Type 0 where
  pub fd_table : List Ptr
  pub file_at : Ptr → File
  pub freed : List Ptr
  pub released : List Ptr

-- `fs_init`
unfoldable pub fs_init : Files → Files
fs_init t = record t { fd_table = replicate nr_open_default 0 }

-- The first free slot of the table from number `fd` on.
unfoldable pub unused_from : List Ptr → (fd : ℕ) → Option ℕ
unused_from [] fd = none
unused_from (p ∷ ps) fd = let rest = unused_from ps (fd + 1) in if p == 0 then some fd else rest

-- `get_unused_fd`
pub get_unused_fd : Files → ℤ
get_unused_fd t = elim (unused_from t.fd_table 0) [ none ↦ minus 1 | some fd ↦ pos fd ]

-- `fd_table[fd]`, where the number is in range.
abbrev pub slot : Files → ℤ → Option Ptr
slot t (negsuc n) = none
slot t (pos fd) = if leb nr_open_default fd then none else some (get_or t.fd_table fd 0)

-- `fd_install`
unfoldable pub fd_install : Files → ℤ → Ptr → ℤ × Files
fd_install t (negsuc n) file = (minus 1, t)
fd_install t (pos fd) file =
    if leb nr_open_default fd || not (get_or t.fd_table fd 0 == 0)
    then (minus 1, t)
    else (pos 0, record t { fd_table = set t.fd_table fd file })

-- `fget`
pub fget : Files → ℤ → Ptr
fget t fd = elim (slot t fd) [ none ↦ 0 | some p ↦ p ]

-- `fput`: the file is released, where it has a function for that, and freed.
unfoldable pub fput : Files → Ptr → ℤ × Files
fput t file =
    let released = if (t.file_at file).release then file ∷ t.released else t.released in
    if file == 0
    then (minus 1, t)
    else (pos 0, record t { freed = file ∷ t.freed; released = released })

-- `sys_close`
unfoldable pub sys_close : Files → ℤ → ℤ × Files
sys_close t (negsuc n) = (minus 1, t)
sys_close t (pos fd) =
    let file = get_or t.fd_table fd 0 in
    if leb nr_open_default fd || file == 0
    then (minus 1, t)
    else fput (record t { fd_table = set t.fd_table fd 0 }) file

-- The file of a descriptor that is in range and open.
pub open_file : Files → ℤ → Option Ptr
open_file t fd = elim (slot t fd) [ none ↦ none | some p ↦ if p == 0 then none else some p ]

abbrev pub update : (Ptr → File) → Ptr → File → Ptr → File
update files p file q = if q == p then file else files q

abbrev pub ReadResult : Type 0
ReadResult = ℤ × List ℕ × Files

-- The call of the function of the file at `p`, which also gets a pointer to the position.
abbrev pub read_by : Files → Ptr → (count : ℕ) → Option (ℕ → ℕ → ℤ × List ℕ × ℕ) → ReadResult
read_by t p count none = (minus 1, [], t)
read_by t p count (some f) =
    let (got, bytes, moved) = f count (t.file_at p).pos in
    (got, bytes, record t { file_at = update t.file_at p (record (t.file_at p) { pos = moved }) })

-- `sys_read`
pub sys_read : Files → ℤ → (count : ℕ) → ReadResult
sys_read t fd count = elim (open_file t fd) [
  | none ↦ (minus 1, [], t)
  | some p ↦ read_by t p count (t.file_at p).read
]

abbrev pub write_by : Files → Ptr → List ℕ → Option (ℕ → List ℕ → ℤ × ℕ) → ℤ × Files
write_by t p bytes none = (minus 1, t)
write_by t p bytes (some f) =
    let (put, moved) = f (t.file_at p).pos bytes in
    (put, record t { file_at = update t.file_at p (record (t.file_at p) { pos = moved }) })

-- `sys_write`
pub sys_write : Files → ℤ → List ℕ → ℤ × Files
sys_write t fd bytes = elim (open_file t fd) [
  | none ↦ (minus 1, t)
  | some p ↦ write_by t p bytes (t.file_at p).write
]

-- `sys_lseek`
pub sys_lseek : Files → ℤ → (offset : ℤ) (whence : ℕ) → ℤ
sys_lseek t fd offset whence = elim (open_file t fd) [
  | none ↦ minus 1
  | some p ↦ elim ((t.file_at p).llseek) [ none ↦ minus 1 | some f ↦ f offset whence ]
]

-- `sys_open` of a name that is not NULL; `file` is what `kmalloc` returns.
unfoldable pub sys_open : (file : Ptr) → (flags : ℕ) → Files → ℤ × Files
sys_open file flags t = if file == 0 then (minus 1, t) else (elim (unused_from t.fd_table 0) [
  | none ↦ (minus 1, record t { freed = file ∷ t.freed })
  | some fd ↦
      let (ret, t') = fd_install t (pos fd) file in
      let made = record zero_file { fd = fd; flags = flags } in
      if is_neg ret
      then (minus 1, record t' { freed = file ∷ t.freed })
      else (pos fd, record t' { file_at = update t.file_at file made })
])
