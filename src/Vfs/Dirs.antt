-- ===== src/Vfs/Dirs.antt =====
-- Directories, removal, information and mounting in kernel/vfs.c.
pub mod Removal
use reta_os.Prelude.{
  ℕ, zero, suc, ◌+◌, ◌-◌, Bool, true, false, not, ◌&&◌, ◌||◌, Option, none, some, List, [], ◌∷◌,
  ltb, leb, ◌==◌, if◌then◌else◌, length, take, drop, get_elem?, replicate,
}
use reta_os.Prelude.Int.{ℤ, pos, minus, is_zero}
use reta_os.Prelude.Maybe.{◌>>=◌}
use reta_os.Text.{strrchr}
use reta_os.Vfs.Node.{
  Node, Dirent, no_dirent, Vfs, Ptr, zero_node, no_ops, enoent, eio, enotdir, eisdir, einval,
  enametoolong, enotempty, ft_dir, max_open_files, path_max, any_of, is_dir, u32, named, same_name,
}
use reta_os.Vfs.Lookup.{Found, found, failed, unfinished, lookup, slash, dot, dot_dot, text_of}
use reta_os.Vfs.Create.{create, mkdir, update}

-- What a directory entry says of a node.
pub entry_of : Node → Dirent
entry_of n = record {
  name = take 255 (text_of n.name);
  size = n.size;
  is_dir = any_of n.flags ft_dir;
}

-- The loop of `vfs_list` over the children, with room for `room` more entries.
pub list_children : (Ptr → Node) → List Ptr → ℕ → List Dirent
list_children nodes [] room = []
list_children nodes (p ∷ ps) zero = []
list_children nodes (p ∷ ps) (suc room) =
    let with = entry_of (nodes p) ∷ list_children nodes ps room in
    let without = list_children nodes ps (suc room) in if named (nodes p) then with else without

-- The result and the entries; the number of entries is the result where it is not an error.
pub list : ℕ → Vfs → List ℕ → ℕ → Option (ℤ × List Dirent)
list fuel v path max_entries =
    if max_entries == 0 then some (minus einval, []) else (elim (lookup fuel v path) [
      | unfinished ↦ none
      | failed e ↦ some (minus e, [])
      | found dir ↦
          if not (any_of dir.flags ft_dir)
          then some (minus enotdir, [])
          else (let entries = list_children v.nodes dir.children max_entries in
              some (pos (length entries), entries))
    ])

pub opendir : ℕ → Vfs → List ℕ → Option (ℤ × Node)
opendir fuel v path = elim (lookup fuel v path) [
  | unfinished ↦ none
  | failed e ↦ some (minus e, zero_node)
  | found dir ↦
      if any_of dir.flags ft_dir
      then some (pos 0, record dir { position = 0 })
      else some (minus enotdir, dir)
]

-- The entry and the directory moved on, or the value of `errno` where NULL is returned.
pub data Entry : Type 0 where
  entry : Dirent → Node → Entry
  no_entry : ℕ → Entry

pub readdir : (Ptr → Node) → Node → Entry
readdir nodes dir =
    let moved = record dir { position = u32 (dir.position + 1) } in
    if not (any_of dir.flags ft_dir) then no_entry enotdir else (elim (dir.ops.readdir) [
      | some readdir_fn ↦
          let e = readdir_fn dir.position in
          elim (e.name) [
            | [] ↦ no_entry enoent
            | c ∷ cs ↦ if c == 0 then no_entry enoent else entry e moved
          ]
      | none ↦ elim (get_elem? dir.children dir.position) [
        | none ↦ no_entry enoent
        | some p ↦ entry (entry_of (nodes p)) moved
      ]
    ])

-- `vfs_read_dir`, with its static variables: the last entry and the shared index.
pub record Cursor : Type 0 where
  pub last : Dirent
  pub index : ℕ

pub read_dir : Cursor → Node → Cursor
read_dir c dir =
    let ended = record c { last = record (c.last) { name = [] } } in
    if not (any_of dir.flags ft_dir) then ended else (elim (dir.ops.readdir) [
      | none ↦ ended
      | some readdir_fn ↦ record { last = readdir_fn c.index; index = u32 (c.index + 1) }
    ])

pub closedir : Node → ℤ × Node
closedir dir = (pos 0, record dir { position = 0 })

-- `st_size` and `st_mode` of `vfs_stat`; the other fields become 0.
pub stat : ℕ → Vfs → List ℕ → Option (ℤ × ℕ × ℕ)
stat fuel v path = elim (lookup fuel v path) [
  | unfinished ↦ none
  | failed e ↦ some (minus e, 0, 0)
  | found node ↦ some (pos 0, node.size, node.flags)
]

-- `local` without its first occurrence; `none` if there is none.
pub without : Ptr → List Ptr → Option (List Ptr)
without local [] = none
without local (p ∷ ps) =
    let rest = (do qs ← without local ps; some (p ∷ qs)) in if p == local then some ps else rest

-- The loops at the end of `vfs_remove` and `vfs_rmdir`: they compare the addresses of the children
-- (in `vfs_remove`: of their names, which stand first) with that of the local variable `node`. (Both
-- functions also call the `close` function of the node, whose result they ignore.)
pub unlink : Vfs → Ptr → Node → ℤ × Vfs
unlink v local node =
    if node.parent == 0
    then (minus enoent, v)
    else (let parent = v.nodes node.parent in
        elim (without local parent.children) [
          | none ↦ (minus enoent, v)
          | some ps ↦ (
            pos 0,
            record v { nodes = update v.nodes node.parent (record parent { children = ps }) },
          )
        ])

pub remove : ℕ → Vfs → Ptr → List ℕ → Option (ℤ × Vfs)
remove fuel v local [] = some (minus einval, v)
remove fuel v local (c ∷ path) = elim (lookup fuel v (c ∷ path)) [
  | unfinished ↦ none
  | failed e ↦ some (minus e, v)
  | found node ↦ if is_dir node.flags then some (minus eisdir, v) else some (unlink v local node)
]

-- The loop of `vfs_rmdir` that looks for an entry besides "." and "..", with `rounds` to go.
pub has_entries : ℕ → (Ptr → Node) → Node → Option Bool
has_entries zero nodes dir = none
has_entries (suc rounds) nodes dir = elim (readdir nodes dir) [
  | no_entry e ↦ some false
  | entry e moved ↦
      let next = has_entries rounds nodes moved in
      if same_name e.name dot || same_name e.name dot_dot then next else some true
]

pub rmdir : (fuel rounds : ℕ) → Vfs → Ptr → List ℕ → Option (ℤ × Vfs)
rmdir fuel rounds v local [] = some (minus einval, v)
rmdir fuel rounds v local (c ∷ path) = elim (lookup fuel v (c ∷ path)) [
  | unfinished ↦ none
  | failed e ↦ some (minus e, v)
  | found node ↦ if not (is_dir node.flags) then some (minus enotdir, v) else (do
    (ret, dir) ← opendir fuel v (c ∷ path)
    if not (is_zero ret) then some (minus eio, v) else (do
      busy ← has_entries rounds v.nodes dir
      if busy then some (minus enotempty, v) else some (unlink v local node)))
]

pub set_root : Vfs → Node → Vfs
set_root v root = record v { root = root }

-- `vfs_mount` where nothing is found at the path: its directory must exist, and the mount point is
-- made.
pub mount_new : ℕ → Vfs → List ℕ → Option (ℤ × Vfs)
mount_new fuel v path = elim (strrchr path b'/') [
  | none ↦ mkdir fuel v path
  | some last ↦
      let parent_len = length path - length last in
      if parent_len == 0
      then mkdir fuel v path
      else (if leb path_max parent_len
          then some (minus enametoolong, v)
          else (elim (lookup fuel v (take parent_len path)) [
            | unfinished ↦ none
            | failed e ↦ some (minus e, v)
            | found parent ↦
                if is_dir parent.flags then mkdir fuel v path else some (minus enotdir, v)
          ]))
]

-- The result of the `open` function of a node, if it has one.
pub open_result : Node → ℤ
open_result n = elim (n.ops.open_node) [ none ↦ pos 0 | some open_fn ↦ open_fn 0 ]

pub mount : ℕ → Vfs → List ℕ → Node → Option (ℤ × Vfs)
mount fuel v path fs_root =
    if not (named fs_root) then some (minus einval, v) else (elim (lookup fuel v path) [
      | unfinished ↦ none
      | failed e ↦ mount_new fuel v path
      | found point ↦
          if not (is_dir point.flags)
          then some (minus enotdir, v)
          else (if same_name path slash
              then some (open_result fs_root, set_root v fs_root)
              else some (open_result fs_root, v))
    ])

-- `vfs_init`, where `mounted` is what `fat32_mount` returns. The results of its calls are ignored.
pub init : ℕ → Vfs → Option Node → Option Vfs
init fuel v mounted = do
  let cleared = record v {
    root = record zero_node { name = slash; flags = 0o40755 };
    open_files = replicate max_open_files zero_node;
  }
  v₁ ← elim mounted [
    | none ↦ some cleared
    | some root ↦
        if not (named root)
        then some cleared
        else (do (ret, v') ← mount fuel cleared slash root; some v')
  ]
  (r₁, v₂) ← mkdir fuel v₁ (b'/' ∷ b'd' ∷ b'e' ∷ b'v' ∷ [])
  (r₂, v₃) ← mkdir fuel v₂ (b'/' ∷ b'p' ∷ b'r' ∷ b'o' ∷ b'c' ∷ [])
  (r₃, v₄) ← mkdir fuel v₃ (b'/' ∷ b't' ∷ b'm' ∷ b'p' ∷ [])
  some v₄
