-- ===== src/Vfs/Files/Driver.antt =====
-- `vfs_open` of kernel/vfs.c on what the function `finddir` of a directory finds.
use reta_os.Prelude.{
  ℕ, suc, ◌≡◌, refl, ◌∙◌, ap, ◌<◌, false, Option, none, some, List, [], ◌∷◌, ◌++◌,
}
use reta_os.Prelude.Int.{ℤ, pos, minus}
use reta_os.Vfs.Node.{Node, Vfs, Ptr, zero_node, eacces, o_accmode, same_name}
use reta_os.Vfs.Lookup.{found, lookup, walk, components, step_down, clobbered, dot, dot_dot}
use reta_os.Vfs.Lookup.Walks.{Follow, no_links, walk-append}
use reta_os.Vfs.Files.{free_slot, open_file}
use reta_os.Vfs.Files.Rejects.{open_node-no_bits}
use Prim.Native.Nat.{bit_and}

-- The directory has a function `finddir`, which finds the name, neither "." nor "..", and stores
-- `stored`.
pub record Finds (dir : Node) (name : List ℕ) (stored : Option Ptr) : Type 0 where
  pub finddir : List ℕ → ℤ × Option Ptr
  pub own : dir.ops.finddir ≡ some finddir
  pub finds : finddir name ≡ (pos 0, stored)
  pub not_dot : same_name name dot ≡ false
  pub not_dots : same_name name dot_dot ≡ false

-- The node that the lookup goes on with.
overwritten : Option Ptr → Node
overwritten none = zero_node
overwritten (some p) = clobbered p

step_down-Finds :
    (v : Vfs) (dir : Node) (name : List ℕ) (stored : Option Ptr)
    → Finds dir name stored
    → step_down v dir name ≡ some (overwritten stored)
unfolding step_down overwritten
step_down-Finds v dir name none h = rw (h.own, h.finds) refl
step_down-Finds v dir name (some p) h = rw (h.own, h.finds) refl

no_flags : (stored : Option Ptr) → (overwritten stored).flags ≡ 0
unfolding overwritten clobbered
no_flags none = refl
no_flags (some p) = refl

lookup-Finds :
    (fuel : ℕ) (v : Vfs) (path name : List ℕ) (dir : Node) (dirs : List (List ℕ))
    (stored : Option Ptr)
    → components path ≡ dirs ++ (name ∷ [])
    → walk v no_links v.root dirs ≡ found dir
    → Finds dir name stored
    → lookup (suc fuel) v path ≡ found (overwritten stored)
unfolding lookup walk
lookup-Finds fuel v path name dir dirs stored parts leads h =
    let follow : Follow = λ target. lookup fuel v target in
    let down = step_down-Finds v dir name stored h in
    let plain = no_flags stored in
    ap (walk v follow v.root) parts
    ∙ walk-append v follow v.root dir dirs (name ∷ []) leads
    ∙ rw (h.not_dot, h.not_dots, down, plain) refl

-- A file that the function `finddir` of a directory finds cannot be opened. Where all components
-- of a path but the last lead, over no link, to a directory with such a function, this finds the
-- last one, neither "." nor "..", and a slot is free, `vfs_open` for reading, writing or both
-- returns -EACCES and changes nothing.
pub open_file-Finds :
    (fuel : ℕ) (v : Vfs) (path name : List ℕ) (dir : Node) (dirs : List (List ℕ))
    (stored : Option Ptr) (flags fd : ℕ)
    → components path ≡ dirs ++ (name ∷ [])
    → walk v no_links v.root dirs ≡ found dir
    → Finds dir name stored
    → free_slot v.open_files 0 ≡ some fd
    → bit_and flags o_accmode < 3
    → open_file (suc fuel) v path flags ≡ some (minus eacces, v)
unfolding open_file
open_file-Finds fuel v path name dir dirs stored flags fd parts leads h free mode =
    let there = lookup-Finds fuel v path name dir dirs stored parts leads h in
    let plain = no_flags stored in
    let refused =
      open_node-no_bits v fd flags (overwritten stored) (rw plain refl) (rw plain refl)
        (rw plain refl) (rw plain refl) mode in
    rw (open_file, free, there) (ap some refused)
