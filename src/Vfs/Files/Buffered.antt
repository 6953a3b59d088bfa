-- ===== src/Vfs/Files/Buffered.antt =====
-- `vfs_read` of kernel/vfs.c on an open file whose bytes stand in memory.
use reta_os.Prelude.{
  take_nil, drop-drop, ℕ, zero, suc, ◌≡◌, refl, ap, ◌∙◌, ◌≤◌, ◌<◌, ◌+◌, ◌-◌, ◌^◌, true, false, none,
  some, List, [], ◌∷◌, ◌++◌, arith, ltb, leb, if◌then◌else◌, length, take, drop, get_or, set,
  length-set,
}
use reta_os.Prelude.Int.{pos}
use reta_os.Vfs.Node.{Node, Vfs, any_of, ft_dir, named, max_open_files, zero_node, u32, to_int}
use reta_os.Vfs.Files.{
  descriptor, put_file, advance, read, read_open, read_node, read_with, readable,
}

-- Descriptor `fd` is open, and its node is a file with its bytes in `buffer`.
pub record Buffered (v : Vfs) (fd : ℕ) (node : Node) (buffer : List ℕ) : Type 0 where
  pub range : fd < max_open_files
  pub slots : length v.open_files ≡ max_open_files
  pub entry : get_or v.open_files fd zero_node ≡ node
  pub name : named node ≡ true
  pub file : any_of node.flags ft_dir ≡ false
  pub no_read : node.ops.read ≡ none
  pub bytes : node.buffer ≡ some buffer

-- The bytes that are left, at most `count`.
abbrev pub available : Node → ℕ → ℕ
available node count =
    let left = node.size - node.position in if leb left count then left else count

pub descriptor-Buffered :
    {v : Vfs} {fd : ℕ} {node : Node} {buffer : List ℕ}
    → Buffered v fd node buffer
    → descriptor v (pos fd) ≡ some (fd, node)
unfolding descriptor
descriptor-Buffered {v = v} {fd = fd} b =
    let in_range : leb 32 fd ≡ false = ground (arith, b.range) in
    rw (b.entry, b.name, in_range) refl

-- `vfs_read` gives the bytes at the position, as many as are left and asked for, and moves the
-- position behind them.
pub read-slice :
    {v : Vfs} {fd : ℕ} {node : Node} {buffer : List ℕ} (count : ℕ)
    → Buffered v fd node buffer
    → node.size < 2 ^ 31
    → node.position < node.size
    → count < 2 ^ 31
    → read v (pos fd) count ≡ (
      pos (available node count),
      take (available node count) (drop node.position buffer),
      put_file v fd (record node { position = node.position + available node count }),
    )
unfolding read read_open readable read_node advance put_file
read-slice {v = v} {fd = fd} {node = node} {buffer = buffer} count b small inside bound =
    let found = descriptor-Buffered b in
    let inside' : leb node.size node.position ≡ false = ground (arith, inside) in
    let amount : (if ltb node.size (u32 (node.position + count))
          then node.size - node.position
          else count)
        ≡ available node count =
      ground arith in
    let result : to_int (available node count) ≡ pos (available node count) = ground arith in
    let moved : u32 (node.position + available node count) ≡ node.position + available node count =
      ground arith in
    let reads : readable node ≡ true = rw (b.no_read, b.bytes) refl in
    let from_buffer =
      ap (λ f. read_with v fd node (available node count) f node.buffer) b.no_read
      ∙ ap (read_with v fd node (available node count) none) b.bytes in
    rw (read, found, read_open, b.file, reads, inside', amount, read_node)
      (from_buffer ∙ rw (result, moved) refl)

pub get_or-set :
    (ns : List Node) (i : ℕ) (n : Node) → i < length ns → get_or (set ns i n) i zero_node ≡ n
get_or-set [] i n h = elim h [ ]
get_or-set (m ∷ ns) zero n h = refl
get_or-set (m ∷ ns) (suc i) n h = get_or-set ns i n (omega arith)

pub set-set : (ns : List Node) (i : ℕ) (n m : Node) → set (set ns i n) i m ≡ set ns i m
set-set [] i n m = refl
set-set (k ∷ ns) zero n m = refl
set-set (k ∷ ns) (suc i) n m = ap (λ l. k ∷ l) (set-set ns i n m)

pub put_file-put_file :
    (v : Vfs) (fd : ℕ) (n m : Node) → put_file (put_file v fd n) fd m ≡ put_file v fd m
unfolding put_file
put_file-put_file v fd n m = ap (λ l. record v { open_files = l }) (set-set v.open_files fd n m)

-- Another node put into the slot.
pub put_file-Buffered :
    {v : Vfs} {fd : ℕ} {node : Node} {buffer new : List ℕ} (moved : Node)
    → Buffered v fd node buffer
    → named moved ≡ true
    → any_of moved.flags ft_dir ≡ false
    → moved.ops.read ≡ none
    → moved.buffer ≡ some new
    → Buffered (put_file v fd moved) fd moved new
unfolding put_file
put_file-Buffered {v = v} {fd = fd} moved b has_name file no_read bytes =
    let slots = b.slots in
    let range = b.range in
    record {
      range = range;
      slots = length-set v.open_files fd moved ∙ slots;
      entry = get_or-set v.open_files fd moved (omega arith);
      name = has_name;
      file = file;
      no_read = no_read;
      bytes = bytes;
    }

take-drop : (a c : ℕ) (xs : List ℕ) → take a xs ++ take c (drop a xs) ≡ take (a + c) xs
take-drop zero c xs = ground arith
take-drop (suc a) c [] = rw (take_nil c, take_nil (suc a + c)) refl
take-drop (suc a) c (x ∷ xs) =
    let sum : suc a + c ≡ suc (a + c) = omega arith in rw (sum, take-drop a c xs)

take-drop-append :
    (xs : List ℕ) (p a c : ℕ)
    → take a (drop p xs) ++ take c (drop (p + a) xs) ≡ take (a + c) (drop p xs)
take-drop-append xs p a c = rw⁻¹ (drop-drop p a xs) (take-drop a c (drop p xs))

-- For an open file whose bytes stand in memory, of a size below 2 GB and within its buffer, two
-- reads of less than 1 GB each, the first of which does not reach the end of the file, give
-- together the bytes that one read of both counts gives, and leave the same state.
pub read-parts :
    {v : Vfs} {fd : ℕ} {node : Node} {buffer : List ℕ} (first second : ℕ)
    → Buffered v fd node buffer
    → node.size < 2 ^ 31
    → node.size ≤ length buffer
    → node.position + first < node.size
    → second < 2 ^ 30
    → first < 2 ^ 30
    → let (r, bytes, v') = read v (pos fd) first in
      let (r', bytes', v'') = read v' (pos fd) second in
      let (whole, all, end) = read v (pos fd) (first + second) in
      (r ≡ pos first) × (bytes ++ bytes' ≡ all) × (v'' ≡ end)
read-parts {v = v} {fd = fd} {node = node} {buffer = buffer} first second b small fits inside h₂
      h₁ =
    let enough : available node first ≡ first = ground arith in
    let moved = record node { position = node.position + first } in
    let b' = put_file-Buffered moved b b.name b.file b.no_read b.bytes in
    let part = read-slice first b small (omega arith) (omega arith) in
    let next = read-slice second b' small inside (omega arith) in
    let all = read-slice (first + second) b small (omega arith) (omega arith) in
    let total : available node (first + second) ≡ first + available moved second = ground arith in
    let bytes = take-drop-append buffer node.position first (available moved second) in
    let sum : node.position + (first + available moved second)
        ≡ node.position + first + available moved second =
      omega arith in
    rw (part, enough, next, all, total, sum)
      (
        refl,
        bytes,
        put_file-put_file v fd moved
            (record moved { position = node.position + first + available moved second }),
      )
