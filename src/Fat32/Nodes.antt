-- ===== src/Fat32/Nodes.antt =====
-- fs/fat32_vfs.c: the nodes of a FAT32 file system and the functions that the virtual file system
-- calls on them. The walks over chains of clusters take fuel, and `none` is fuel that ran out, a read
-- outside the table or a fault. The pointers that are passed are not NULL.
pub mod Files
use reta_os.Prelude.{
  ℕ, zero, suc, ◌+◌, ◌-◌, ◌%◌, ◌^◌, Bool, true, false, not, Option, none, some, List, [], ◌∷◌, ltb,
  leb, ◌==◌, if◌then◌else◌, take,
}
use reta_os.Prelude.Int.{ℤ, pos, negsuc, minus, is_zero}
use reta_os.Vfs.Node.{Dirent, no_dirent, enoent, enotdir, eisdir, einval, any_of, same_name, u32}
use reta_os.Fat32.{Disk, Fat}
use reta_os.Fat32.Entry.{Dir, attr_directory}
use reta_os.Fat32.Dir.{Search, hit, no_entry, broken, invalid, lost, find_entry, readdir_index}
use reta_os.Fat32.File.{read_file_data}
use reta_os.Fat32.Init.{Driver, init}

abbrev pub enosys : ℕ
enosys = 38

abbrev pub vfs_file : ℕ
vfs_file = 0x01

abbrev pub vfs_directory : ℕ
vfs_directory = 0x02

abbrev pub name_max : ℕ
name_max = 256

-- `fat32_file_private_t`
pub record Private : Type 0 where
  pub cluster : ℕ
  pub size : ℕ
  pub pos : ℕ
  pub is_dir : Bool

-- The fields of a node that fs/fat32_vfs.c sets; `dir_ops` tells whether it has the functions of a
-- directory, and `priv` is what the private pointer leads to, if it is not NULL.
pub record FatNode : Type 0 where
  pub name : List ℕ
  pub size : ℕ
  pub flags : ℕ
  pub dir_ops : Bool
  pub priv : Option Private

-- The results of the two calls of `kmalloc`: whether the memory is there.
pub record Memory : Type 0 where
  pub for_private : Bool
  pub for_node : Bool

-- `fat32_create_node`: the node, if there is memory for it.
unfoldable pub create_node :
    Memory → (name : List ℕ) (size : ℕ) (is_dir : Bool) (cluster : ℕ) → Option FatNode
create_node memory name size is_dir cluster =
    let priv : Private = record { cluster = cluster; size = size; pos = 0; is_dir = is_dir } in
    let node : FatNode = record {
      name = take (name_max - 1) name;
      size = size;
      flags = if is_dir then vfs_directory else vfs_file;
      dir_ops = is_dir;
      priv = some priv;
    } in
    if not memory.for_private then none else if not memory.for_node then none else some node

abbrev pub on_private {ℓ} : {A : Type ℓ} → Option Private → A → (Private → A) → A
on_private none no_private go_on = no_private
on_private (some p) no_private go_on = go_on p

-- The result, the bytes in the buffer, and the node.
abbrev pub ReadResult : Type 0
ReadResult = ℤ × List ℕ × FatNode

-- The end of `fat32_read`, for what `fat32_read_file_data` returns.
pub after_read : FatNode → Private → (offset : ℕ) → Option (ℤ × List ℕ) → Option ReadResult
after_read node p offset none = none
after_read node p offset (some (pos k, bytes)) =
    some (pos k, bytes, record node { priv = some (record p { pos = u32 (offset + k) }) })
after_read node p offset (some (negsuc k, bytes)) = some (negsuc k, bytes, node)

-- `fat32_read` behind its first two checks.
pub read_file :
    ℕ → Disk → (memory : Bool) → Fat → FatNode → Private → (offset size : ℕ) → Option ReadResult
read_file fuel disk memory f node p offset size =
    let count = if ltb p.size (u32 (offset + size)) then p.size - offset else size in
    if leb p.size offset
    then some (pos 0, [], node)
    else after_read node p offset (read_file_data fuel disk memory f p.cluster offset count)

-- `fat32_read`
pub read : ℕ → Disk → (memory : Bool) → Fat → FatNode → (offset size : ℕ) → Option ReadResult
read fuel disk memory f node offset size =
    on_private node.priv (some (minus einval, [], node)) (λ p.
      if p.is_dir
      then some (minus eisdir, [], node)
      else read_file fuel disk memory f node p offset size)

-- `fat32_write`
pub write : FatNode → (offset : ℕ) → List ℕ → ℤ
write node offset bytes = minus enosys

-- `fat32_open`
pub open_node : FatNode → (flags : ℕ) → ℤ × FatNode
open_node node flags = elim (node.priv) [
  | none ↦ (minus einval, node)
  | some p ↦ (pos 0, record node { priv = some (record p { pos = 0 }) })
]

-- `fat32_close`
pub close_node : FatNode → ℤ
close_node node = elim (node.priv) [ none ↦ minus einval | some p ↦ pos 0 ]

abbrev pub dot : List ℕ
dot = b'.' ∷ []

abbrev pub dot_dot : List ℕ
dot_dot = b'.' ∷ b'.' ∷ []

-- `.` and `..` have no size.
abbrev pub self_dirent : List ℕ → Dirent
self_dirent name = record { name = name; size = 0; is_dir = true }

pub dirent_of : Dir → Dirent
dirent_of d = record {
  name = take (name_max - 1) d.name;
  size = d.size;
  is_dir = any_of d.attributes attr_directory;
}

-- What a failed or a successful search is for a reader of the directory.
pub dirent_from : Search → Option Dirent
dirent_from (hit d) = some (dirent_of d)
dirent_from no_entry = some no_dirent
dirent_from broken = some no_dirent
dirent_from invalid = some no_dirent
dirent_from lost = none

-- `fat32_vfs_readdir` for a directory.
pub readdir_at : ℕ → Disk → Fat → Private → (index : ℕ) → Option Dirent
readdir_at fuel disk f p index =
    let regular = dirent_from (readdir_index fuel disk f p.cluster (index - 2)) in
    if index == 0
    then some (self_dirent dot)
    else if index == 1
    then some (self_dirent dot_dot)
    else regular

-- `fat32_vfs_readdir`
pub readdir : ℕ → Disk → Fat → FatNode → (index : ℕ) → Option Dirent
readdir fuel disk f node index =
    on_private node.priv (some no_dirent)
      (λ p. if not p.is_dir then some no_dirent else readdir_at fuel disk f p index)

-- What `fat32_finddir` stores through its last argument: the node itself, the root of the virtual
-- file system, or a new node (`none` is NULL). `nothing` where it returns an error.
pub data Stored : Type 0 where
  self : Stored
  root : Stored
  fresh : Option FatNode → Stored
  nothing : Stored

-- The end of `fat32_finddir`.
pub found_from : Memory → List ℕ → Search → Option (ℤ × Stored)
found_from memory name (hit d) =
    some
      (pos 0, fresh (create_node memory name d.size (any_of d.attributes attr_directory) d.cluster))
found_from memory name no_entry = some (minus enoent, nothing)
found_from memory name broken = some (minus enoent, nothing)
found_from memory name invalid = some (minus enoent, nothing)
found_from memory name lost = none

-- `fat32_finddir` in a directory; `has_root` tells whether `vfs_get_root` gives a node.
pub finddir_in :
    ℕ → Disk → Fat → (has_root : Bool) → Memory → Private → List ℕ → Option (ℤ × Stored)
finddir_in fuel disk f has_root memory p name =
    let at_root = if has_root then some (pos 0, root) else some (minus enoent, nothing) in
    let by_name = found_from memory name (find_entry fuel disk f p.cluster name) in
    if same_name name dot
    then some (pos 0, self)
    else if same_name name dot_dot
    then at_root
    else by_name

-- `fat32_finddir`
pub finddir : ℕ → Disk → Fat → (has_root : Bool) → Memory → FatNode → List ℕ → Option (ℤ × Stored)
finddir fuel disk f has_root memory node name =
    on_private node.priv (some (minus einval, nothing)) (λ p.
      if not p.is_dir
      then some (minus enotdir, nothing)
      else finddir_in fuel disk f has_root memory p name)

-- `fat32_mount`: the root node of the file system, or NULL.
pub mount : Disk → (ℕ → ℕ × List ℕ) → Memory → Driver → Option (Option FatNode × Driver)
mount disk kmalloc memory d = elim (init disk kmalloc d) [
  | none ↦ none
  | some (ret, d') ↦
      let node = create_node memory [] 0 true d'.fat.boot.root_cluster in
      if not (is_zero ret) then some (none, d') else (elim node [
        | none ↦ some (none, d')
        | some n ↦ some (some (record n { name = b'/' ∷ [] }), d')
      ])
]

-- `fat32_umount`
pub umount : FatNode → ℤ × FatNode
umount node = elim (node.priv) [
  | none ↦ (minus einval, node)
  | some p ↦ (pos 0, record node { priv = none })
]
