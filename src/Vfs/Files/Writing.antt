-- ===== src/Vfs/Files/Writing.antt =====
-- What `vfs_open` of kernel/vfs.c makes of O_APPEND, and what `vfs_write` then does.
use reta_os.Prelude.{
  ℕ, ◌≡◌, refl, sym, ap, ◌∙◌, ◌<◌, ◌⊎◌, inl, inr, true, false, not, ◌&&◌, none, some, List, arith,
  leb, ◌==◌, if◌then◌else◌, Bool-cases, length, get_or,
}
use reta_os.Prelude.Int.{ℤ, pos, minus}
use reta_os.Vfs.Node.{
  Node, Vfs, zero_node, named, any_of, ft_dir, ebadf, o_append, o_trunc, o_accmode, o_rdonly,
  max_open_files,
}
use Prim.Native.Nat.{bit_and}
use reta_os.Vfs.Lookup.{found, lookup}
use reta_os.Vfs.Files.{
  descriptor, put_file, write, free_slot, access_error, truncated, install, open_node, open_file,
}
use reta_os.Vfs.Files.Buffered.{get_or-set}
use reta_os.Vfs.Files.Bounded.{free_slot-lt}

-- A named file without a function for writing and without the bit of O_APPEND among its own flags,
-- whose function for opening, if it has one, returns 0 for these flags.
pub record Unwritable (node : Node) (flags : ℕ) : Type 0 where
  pub name : named node ≡ true
  pub file : any_of node.flags ft_dir ≡ false
  pub no_write : node.ops.write ≡ none
  pub no_append : any_of node.flags o_append ≡ false
  pub opens :
      (node.ops.open_node ≡ none)
      ⊎ ((f : ℕ → ℤ) × (node.ops.open_node ≡ some f) × (f flags ≡ pos 0))

-- The node that is put into the slot.
abbrev placed : Node → (flags : ℕ) → Node
placed node flags = record node { position = if any_of flags o_append then node.size else 0 }

install-placed :
    (v : Vfs) (fd flags : ℕ) (node : Node) (r : ℤ × Vfs)
    → Unwritable node flags
    → (pos fd, put_file v fd (placed node flags)) ≡ r
    → install v fd flags node ≡ r
unfolding install
install-placed v fd flags node r u e = elim (u.opens) [
  | inl no_open ↦ rw (install, no_open) e
  | inr (f, has_open, ok) ↦ rw (install, has_open, ok) e
]

-- Truncation may set the size to 0.
truncated-Unwritable :
    (node : Node) (flags : ℕ)
    → Unwritable node flags
    → (size : ℕ) × (truncated node flags ≡ (pos 0, record node { size = size }))
unfolding truncated
truncated-Unwritable node flags u =
    let no_write = u.no_write in
    elim (Bool-cases (any_of flags o_trunc && not (bit_and flags o_accmode == o_rdonly))) [
      | inr keep ↦ (node.size, rw keep refl)
      | inl cut ↦ elim (Bool-cases (any_of node.flags o_trunc)) [
        | inl own ↦ (0, rw (cut, own) refl)
        | inr not_own ↦ (node.size, kept (pos 0, node) cut not_own no_write refl)
      ]
    ]
  where
    kept :
        (r : ℤ × Node)
        → (any_of flags o_trunc && not (bit_and flags o_accmode == o_rdonly)) ≡ true
        → any_of node.flags o_trunc ≡ false
        → node.ops.write ≡ none
        → (pos 0, node) ≡ r
        → truncated node flags ≡ r
    kept r cut not_own no_write e = rw (truncated, cut, not_own, no_write) e

write-placed :
    (v : Vfs) (fd flags : ℕ) (node : Node) (bytes : List ℕ)
    → fd < max_open_files
    → length v.open_files ≡ max_open_files
    → Unwritable node flags
    → (w : Vfs) → put_file v fd (placed node flags) ≡ w
    → write w (pos fd) bytes ≡ (minus ebadf, w)
unfolding descriptor put_file write
write-placed v fd flags node bytes range slots u w at =
    let in_range : leb max_open_files fd ≡ false = ground (arith, range) in
    let stored = get_or-set v.open_files fd (placed node flags) (omega arith) in
    let entry : get_or w.open_files fd zero_node ≡ placed node flags =
      ap (λ t. get_or t.open_files fd zero_node) (sym at) ∙ stored in
    let has_name : named (placed node flags) ≡ true = u.name in
    let open_there : descriptor w (pos fd) ≡ some (fd, placed node flags) =
      rw (entry, in_range, has_name) refl in
    rw (write, open_there, u.file, u.no_write, u.no_append) refl

-- A file found by its path that is no directory, has a name, no function for writing and not the
-- bit of O_APPEND among its own flags, and whose function for opening, if it has one, returns 0,
-- cannot be written to, although it can be opened for that: where the access checks pass and a
-- slot of the table of 32 is free, `vfs_open` succeeds and puts the file there, at its end if the
-- flags of the call have O_APPEND and else at its start, and every `vfs_write` on the descriptor
-- then returns -EBADF and changes nothing, whatever the flags of the call were.
pub open_file-write :
    (fuel : ℕ) (v : Vfs) (path : List ℕ) (flags fd : ℕ) (node : Node)
    → lookup fuel v path ≡ found node
    → Unwritable node flags
    → length v.open_files ≡ max_open_files
    → free_slot v.open_files 0 ≡ some fd
    → access_error node.flags flags ≡ 0
    → (size : ℕ) × (let file = record node {
      size = size;
      position = if any_of flags o_append then size else 0;
    } in
        (open_file fuel v path flags ≡ some (pos fd, put_file v fd file))
        × ((bytes : List ℕ)
            → write (put_file v fd file) (pos fd) bytes ≡ (minus ebadf, put_file v fd file)))
unfolding open_file open_node
open_file-write fuel v path flags fd node there u slots free allowed =
    let (size, cut) = truncated-Unwritable node flags u in
    let node' = record node { size = size } in
    let u' : Unwritable node' flags = record {
      name = u.name;
      file = u.file;
      no_write = u.no_write;
      no_append = u.no_append;
      opens = u.opens;
    } in
    let range : fd < max_open_files = omega (arith, slots, free_slot-lt v.open_files 0 fd free) in
    let v' = put_file v fd (placed node' flags) in
    (
      size,
      (
        rw (open_file, free, there)
            (ap some
              (opened (pos fd, v') cut (install-placed v fd flags node' (pos fd, v') u' refl))),
        λ bytes. write-placed v fd flags node' bytes range slots u' v' refl,
      ),
    )
  where
    opened :
        {node' : Node} (r : ℤ × Vfs)
        → truncated node flags ≡ (pos 0, node')
        → install v fd flags node' ≡ r
        → open_node v fd flags node ≡ r
    opened r cut e = rw (open_node, allowed, cut) e
