-- ===== src/Vfs/Create.antt =====
-- `vfs_create`, `vfs_create_node` and `vfs_mkdir` of kernel/vfs.c.
pub mod Lost
use reta_os.Prelude.{
  ℕ, ◌+◌, ◌-◌, Bool, true, false, not, ◌&&◌, ◌||◌, Option, none, some, List, [], ◌∷◌, ltb, leb,
  ◌==◌, if◌then◌else◌, length, take, drop,
}
use reta_os.Prelude.Int.{ℤ, pos, minus}
use reta_os.Text.{strrchr}
use reta_os.Vfs.Node.{
  Node, Vfs, Ptr, zero_node, enomem, eexist, enotdir, einval, enametoolong, ft_dir, s_ifdir, any_of,
  path_max,
}
use reta_os.Vfs.Lookup.{Found, found, failed, unfinished, lookup, slash, dot, text_of}

-- The directory and the last name of a path; `none` if the directory's path is too long.
pub split_path : List ℕ → Option (List ℕ × List ℕ)
split_path path = elim (strrchr path b'/') [
  | none ↦ some (dot, path)
  | some last ↦
      let parent_len = length path - length last in
      if parent_len == 0
      then some (slash, drop 1 last)
      else (if leb path_max parent_len then none else some (take parent_len path, drop 1 last))
]

-- `vfs_create_node`, at the address that `kmalloc` returned.
pub create_node : List ℕ → ℕ → Node
create_node name flags = record zero_node { name = take 255 (text_of name); flags = flags }

-- After `n` more nodes were allocated.
pub allocated : ℕ → Vfs → Vfs
allocated n v = record v { new_nodes = λ k. v.new_nodes (k + n) }

pub update : (Ptr → Node) → Ptr → Node → Ptr → Node
update nodes p n q = if q == p then n else nodes q

-- The new node is hung into the copy of the parent directory at address `at`, which is then freed.
pub link_new : Vfs → (at fresh : Ptr) → (parent child : Node) → Vfs
link_new v at fresh parent child = record (allocated 2 v) {
  nodes =
      update (update v.nodes at (record parent { children = fresh ∷ parent.children })) fresh
        (record child { parent = at });
}

-- The parts of `vfs_create` behind the lookup of the path, and behind that of the parent directory.
pub create_missing : Vfs → Node → List ℕ → ℕ → Found → Option (ℤ × Vfs)
create_missing v parent name flags unfinished = none
create_missing v parent name flags (found existing) = some (minus eexist, allocated 1 v)
create_missing v parent name flags (failed e) =
    let at = v.new_nodes 0 in
    let fresh = v.new_nodes 1 in
    if fresh == 0
    then some (minus enomem, allocated 2 v)
    else some (pos 0, link_new v at fresh parent (create_node name flags))

pub create_in : Vfs → List ℕ → ℕ → (parent file : Found) → Option (ℤ × Vfs)
create_in v name flags unfinished file = none
create_in v name flags (failed e) file = some (minus e, allocated 1 v)
create_in v name flags (found parent) file =
    if not (any_of parent.flags ft_dir)
    then some (minus enotdir, allocated 1 v)
    else create_missing v parent name flags file

pub create : ℕ → Vfs → List ℕ → ℕ → Option (ℤ × Vfs)
create fuel v [] flags = some (minus einval, v)
create fuel v (c ∷ path) flags = elim (split_path (c ∷ path)) [
  | none ↦ some (minus enametoolong, v)
  | some (dir, name) ↦
      if v.new_nodes 0 == 0
      then some (minus enomem, allocated 1 v)
      else create_in v name flags (lookup fuel v dir) (lookup fuel v (c ∷ path))
]

pub mkdir : ℕ → Vfs → List ℕ → Option (ℤ × Vfs)
mkdir fuel v path = create fuel v path 0o40755
