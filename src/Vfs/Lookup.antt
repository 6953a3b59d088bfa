-- ===== src/Vfs/Lookup.antt =====
-- `child_lookup` and `vfs_lookup` of kernel/vfs.c. The recursion on symbolic links takes fuel; a
-- walk that meets no link needs one unit.
pub mod Walks
pub mod Reach
use reta_os.Prelude.{
  ℕ, zero, suc, ◌+◌, ◌-◌, ◌/◌, ◌%◌, Bool, true, false, not, ◌&&◌, ◌||◌, Option, none, some, List,
  [], ◌∷◌, ◌++◌, ltb, leb, ◌==◌, if◌then◌else◌, length, take,
}
use reta_os.Prelude.Int.{ℤ, pos, negsuc, minus, is_zero}
use reta_os.Text.{strlen, strcmp, tokens_from}
use reta_os.Vfs.Node.{
  Node, Vfs, FileOps, Ptr, zero_node, enoent, eio, enotdir, s_ifdir, is_lnk, any_of, same_name,
  path_max,
}

-- What `vfs_lookup` leaves in `*out_node`, or the error; `unfinished` is a chain of links longer
-- than the fuel.
pub data Found : Type 0 where
  found : Node → Found
  failed : ℕ → Found
  unfinished : Found

abbrev pub slash : List ℕ
slash = b'/' ∷ []

-- The first child of that name.
unfoldable pub find_child : (Ptr → Node) → List Ptr → List ℕ → Option Node
find_child nodes [] name = none
find_child nodes (p ∷ ps) name =
    let rest = find_child nodes ps name in
    if same_name (nodes p).name name then some (nodes p) else rest

unfoldable pub child_lookup : Vfs → Node → List ℕ → Found
child_lookup v dir name =
    if any_of dir.flags s_ifdir
    then (elim (find_child v.nodes dir.children name) [ none ↦ failed enoent | some n ↦ found n ])
    else failed enotdir

-- The bytes of a string that stand before a terminator.
unfoldable pub text_of : List ℕ → List ℕ
text_of [] = []
text_of (c ∷ s) = let rest = c ∷ text_of s in if c == 0 then [] else rest

-- The node `child` after `finddir(&current_node, component, &child)`: the callee stores a pointer
-- where `child` begins, so its four bytes become the start of the name.
unfoldable pub clobbered : Ptr → Node
clobbered p = record zero_node {
  name = text_of (p % 256 ∷ p / 256 % 256 ∷ p / 65536 % 256 ∷ p / 16777216 % 256 ∷ []);
}

-- The node for one component that is neither "." nor "..".
unfoldable pub step_down : Vfs → Node → List ℕ → Option Node
step_down v current component =
    let by_list = find_child v.nodes current.children component in
    elim (current.ops.finddir) [
      | none ↦ by_list
      | some finddir ↦
          let (ret, stored) = finddir component in
          if is_zero ret
          then (elim stored [ none ↦ some zero_node | some p ↦ some (clobbered p) ])
          else by_list
    ]

-- The path that is looked up for a link: its target, with the next component appended.
unfoldable pub through_link : List ℕ → List (List ℕ) → List ℕ
through_link target [] = target
through_link target (c ∷ rest) =
    if ltb (strlen target + 1) path_max
    then take (path_max - 1) (text_of target ++ (b'/' ∷ c))
    else target

abbrev pub dot : List ℕ
dot = b'.' ∷ []

abbrev pub dot_dot : List ℕ
dot_dot = b'.' ∷ b'.' ∷ []

-- The bytes of a link, or an error.
unfoldable pub read_link : Node → Option (List ℕ)
read_link n = elim (n.ops.read) [
  | none ↦ none
  | some read ↦
      let (got, bytes) = read 0 (path_max - 1) in
      elim got [
        | pos k ↦ (if k == 0 then none else some (text_of (take k bytes)))
        | negsuc k ↦ none
      ]
]

-- The loop over the components; `follow` looks up the target of a link.
unfoldable pub walk : Vfs → (List ℕ → Found) → Node → List (List ℕ) → Found
walk v follow current [] = found current
walk v follow current (c ∷ cs) =
    let stay = walk v follow current cs in
    let up = walk v follow (if current.parent == 0 then current else v.nodes current.parent) cs in
    if same_name c dot
    then stay
    else if same_name c dot_dot
    then up
    else (elim (step_down v current c) [
      | none ↦ failed enoent
      | some child ↦
          let down = walk v follow child cs in
          if is_lnk child.flags
          then (elim (read_link child) [
            | none ↦ failed eio
            | some target ↦ follow (through_link target cs)
          ])
          else down
    ])

-- The components of the copy of the path.
unfoldable pub components : List ℕ → List (List ℕ)
components path = tokens_from (length path + 1) (take (path_max - 1) path) slash

unfoldable pub lookup : ℕ → Vfs → List ℕ → Found
lookup zero v path = unfinished
lookup (suc fuel) v path = walk v (λ target. lookup fuel v target) v.root (components path)
