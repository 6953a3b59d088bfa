-- ===== src/Vfs/Files/Bounded.antt =====
-- `vfs_read` and `vfs_open` of kernel/vfs.c on any kind of file: how much a read gives at most, and
-- what stands in the slot of an opened file.
use reta_os.Prelude.{
  ℕ, zero, suc, ◌≡◌, refl, ◌≤◌, ◌<◌, ◌+◌, ◌-◌, ◌^◌, ◌⊎◌, inl, inr, true, Option, none, some, List,
  [], ◌∷◌, arith, ltb, leb, if◌then◌else◌, length, get_or, Bool-cases, Option-cases, subst,
  length-set, ◌==◌, false,
}
use reta_os.Prelude.Int.{ℤ, pos, negsuc, is_neg, is_zero, minus}
use reta_os.Vfs.Node.{
  Node, Vfs, any_of, ft_dir, named, max_open_files, emfile, zero_node, u32, to_int,
}
use reta_os.Vfs.Lookup.{found, lookup}
use reta_os.Vfs.Files.Buffered.{get_or-set}
use reta_os.Vfs.Files.{
  ReadResult, descriptor, put_file, advance, read, read_open, read_node, read_with, after_function,
  readable, free_slot, install, open_node, open_file, access_error, truncated,
}

-- A function for reading that gives no more bytes than there are behind the offset.
abbrev pub IsHonest : Node → Type 0
IsHonest node =
    (f : ℕ → ℕ → ℤ × List ℕ) (offset count k : ℕ)
    → node.ops.read ≡ some f
    → (f offset count).0 ≡ pos k
    → k ≤ node.size - offset

-- What a read of `node` in slot `fd` can give: an error, nothing, or bytes that are there, with the
-- position moved on.
pub data Reads (v : Vfs) (fd : ℕ) (node : Node) : ReadResult → Type 0 where
  fails : {got : ℤ} {bytes : List ℕ} {w : Vfs} → is_neg got ≡ true → Reads v fd node (got, bytes, w)
  nothing : {bytes : List ℕ} {w : Vfs} → Reads v fd node (pos 0, bytes, w)
  gives :
      {bytes : List ℕ} (k : ℕ)
      → k ≤ node.size - node.position
      → Reads v fd node (pos k, bytes, put_file v fd (advance node k))

descriptor-cases :
    (v : Vfs) (fd : ℕ)
    → (descriptor v (pos fd) ≡ none)
      ⊎ (descriptor v (pos fd) ≡ some (fd, get_or v.open_files fd zero_node))
unfolding descriptor
descriptor-cases v fd = elim (Bool-cases (leb max_open_files fd)) [
  | inl out ↦ inl (rw out refl)
  | inr inside ↦ elim (Bool-cases (named (get_or v.open_files fd zero_node))) [
    | inl name ↦ inr (rw (inside, name) refl)
    | inr free ↦ inl (rw (inside, free) refl)
  ]
]

after_function-Reads :
    (v : Vfs) (fd : ℕ) (node : Node) (result : ℤ × List ℕ)
    → ((k : ℕ) → result.0 ≡ pos k → k ≤ node.size - node.position)
    → Reads v fd node (after_function v fd node result)
after_function-Reads v fd node (pos k, bytes) bound = gives k (bound k refl)
after_function-Reads v fd node (negsuc k, bytes) bound = fails refl

read_with-Reads :
    (v : Vfs) (fd : ℕ) (node : Node) (to_read : ℕ) (own : Option (ℕ → ℕ → ℤ × List ℕ))
    (content : Option (List ℕ))
    → ((f : ℕ → ℕ → ℤ × List ℕ) (k : ℕ)
        → own ≡ some f
        → (f node.position to_read).0 ≡ pos k
        → k ≤ node.size - node.position)
    → to_read ≤ node.size - node.position
    → to_read < 2 ^ 31
    → Reads v fd node (read_with v fd node to_read own content)
read_with-Reads v fd node to_read (some f) content honest le small =
    after_function-Reads v fd node (f node.position to_read) (λ k. honest f k refl)
read_with-Reads v fd node to_read none none honest le small = fails refl
read_with-Reads v fd node to_read none (some buffer) honest le small =
    let result : to_int to_read ≡ pos to_read = ground arith in rw result (gives to_read le)

read_open-Reads :
    (v : Vfs) (fd count : ℕ) (node : Node)
    → IsHonest node
    → node.size < 2 ^ 31
    → count < 2 ^ 31
    → Reads v fd node (read_open v count fd node)
unfolding read_open read_node
read_open-Reads v fd count node honest small bound = elim (Bool-cases (any_of node.flags ft_dir)) [
  | inl d ↦ rw d (fails refl)
  | inr d ↦ elim (Bool-cases (readable node)) [
    | inr r ↦ rw (d, r) (fails refl)
    | inl r ↦ elim (Bool-cases (leb node.size node.position)) [
      | inl at_end ↦ rw (d, r, at_end) nothing
      | inr inside ↦
          let to_read =
            if ltb node.size (u32 (node.position + count))
            then node.size - node.position
            else count in
          let fits : to_read ≤ node.size - node.position = ground (arith, inside) in
          rw (d, r, inside)
            (read_with-Reads v fd node to_read node.ops.read node.buffer
              (λ f k. honest f node.position to_read k) fits (omega (arith, fits)))
    ]
  ]
]

-- A read of the file in slot `fd`.
pub read-Reads :
    (v : Vfs) (fd count : ℕ) (node : Node)
    → get_or v.open_files fd zero_node ≡ node
    → IsHonest node
    → node.size < 2 ^ 31
    → count < 2 ^ 31
    → Reads v fd node (read v (pos fd) count)
unfolding read
read-Reads v fd count node slot honest small bound = elim (descriptor-cases v fd) [
  | inl e ↦ rw (read, e) (fails refl)
  | inr e ↦ rw (read, e, slot) (read_open-Reads v fd count node honest small bound)
]

-- An error, or no more than `n`.
abbrev pub IsAtMost : ℤ → ℕ → Type 0
IsAtMost (pos k) n = k ≤ n
IsAtMost (negsuc k) n = Unit {0}

Reads-IsAtMost :
    {v : Vfs} {fd : ℕ} {node : Node} (r : ReadResult)
    → Reads v fd node r
    → IsAtMost r.0 (node.size - node.position)
Reads-IsAtMost (pos k, bytes, w) (fails e) = absurd (ground (arith, e))
Reads-IsAtMost (negsuc k, bytes, w) (fails e) = record {}
Reads-IsAtMost r nothing = omega arith
Reads-IsAtMost r (gives k le) = le

-- A read that comes behind one of `k` bytes from the start of a file gives at most the rest.
pub read-IsAtMost :
    (v : Vfs) (fd k count : ℕ) (node : Node)
    → fd < length v.open_files
    → node.position ≡ 0
    → k ≤ node.size
    → IsHonest node
    → node.size < 2 ^ 31
    → count < 2 ^ 31
    → IsAtMost (read (put_file v fd (advance node k)) (pos fd) count).0 (node.size - k)
unfolding put_file advance
read-IsAtMost v fd k count node inside start le honest small bound =
    let w = put_file v fd (advance node k) in
    let moved : u32 (node.position + k) ≡ k = omega (arith, start) in
    let slot = get_or-set v.open_files fd (advance node k) inside in
    let reads = read-Reads w fd count (advance node k) slot honest small bound in
    subst (λ (at : ℕ). IsAtMost (read w (pos fd) count).0 (node.size - at)) moved
      (Reads-IsAtMost (read w (pos fd) count) reads)

-- A function for opening that returns 0 or a negative error number.
abbrev pub IsOpenable : Node → Type 0
IsOpenable node = (f : ℕ → ℤ) → node.ops.open_node ≡ some f → (f 0 ≡ pos 0) ⊎ (is_neg (f 0) ≡ true)

-- What `vfs_open` for reading returns: an error, or a slot with the file at its start.
pub data Opens (v : Vfs) (node : Node) : ℤ × Vfs → Type 0 where
  refused : {ret : ℤ} {v' : Vfs} → is_neg ret ≡ true → Opens v node (ret, v')
  opened :
      (fd : ℕ)
      → fd < length v.open_files
      → Opens v node (pos fd, put_file v fd (record node { position = 0 }))

pub free_slot-lt :
    (files : List Node) (from fd : ℕ) → free_slot files from ≡ some fd → fd < from + length files
unfolding free_slot
free_slot-lt [] from fd e = absurd (ground (arith, e))
free_slot-lt (n ∷ files) from fd e = elim (Bool-cases (named n)) [
  | inl taken ↦ omega (arith, free_slot-lt files (from + 1) fd (rw taken at e))
  | inr free ↦ ground (arith, free, e)
]

install-Opens :
    (v : Vfs) (fd : ℕ) (node : Node)
    → IsOpenable node
    → fd < length v.open_files
    → Opens v node (install v fd 0 node)
unfolding install
install-Opens v fd node opens inside = elim (Option-cases node.ops.open_node) [
  | inl e ↦ rw e (opened fd inside)
  | inr (f, e) ↦ elim (opens f e) [
    | inl ok ↦ rw (e, ok) (opened fd inside)
    | inr bad ↦ elim (Bool-cases (is_zero (f 0))) [
      | inl z ↦ rw (e, z) (opened fd inside)
      | inr nz ↦ rw (e, nz) (refused bad)
    ]
  ]
]

minus-nonzero : (e : ℕ) → (e == 0) ≡ false → is_neg (minus e) ≡ true
minus-nonzero zero h = absurd (ground (arith, h))
minus-nonzero (suc e) h = refl

open_node-Opens :
    (v : Vfs) (fd : ℕ) (node : Node)
    → IsOpenable node
    → fd < length v.open_files
    → Opens v node (open_node v fd 0 node)
unfolding open_node truncated
open_node-Opens v fd node opens inside = elim (Bool-cases (access_error node.flags 0 == 0)) [
  | inl allowed ↦ rw allowed (install-Opens v fd node opens inside)
  | inr denied ↦ rw denied (refused (minus-nonzero (access_error node.flags 0) denied))
]

-- Opening a file that is found.
pub open_file-Opens :
    (fuel : ℕ) (v : Vfs) (path : List ℕ) (node : Node)
    → lookup fuel v path ≡ found node
    → IsOpenable node
    → (r : ℤ × Vfs) × (open_file fuel v path 0 ≡ some r) × Opens v node r
unfolding open_file
open_file-Opens fuel v path node here opens = elim (Option-cases (free_slot v.open_files 0)) [
  | inl full ↦ ((minus emfile, v), rw (open_file, full) refl, refused refl)
  | inr (fd, e) ↦ (
    open_node v fd 0 node,
    rw (open_file, e, here) refl,
    open_node-Opens v fd node opens (omega (arith, free_slot-lt v.open_files 0 fd e)),
  )
]

-- Where the file that is opened stands.
pub slot-put_file :
    (v : Vfs) (fd : ℕ) (node : Node)
    → fd < length v.open_files
    → (get_or (put_file v fd node).open_files fd zero_node ≡ node)
      × (fd < length (put_file v fd node).open_files)
unfolding put_file
slot-put_file v fd node inside =
    (get_or-set v.open_files fd node inside, omega (arith, length-set v.open_files fd node))
