-- ===== src/Vfs/Files/RoundTrip.antt =====
-- `vfs_write` and `vfs_read` of kernel/vfs.c on a file in memory that may be appended to.
use reta_os.Prelude.{
  ℕ, zero, suc, ◌≡◌, refl, ap, ◌≤◌, ◌<◌, ◌+◌, ◌^◌, inl, inr, true, none, some, List, [], ◌∷◌, ◌++◌,
  arith, ltb, if◌then◌else◌, Bool-cases, length, take, drop, length-append, length-take,
  length-drop,
}
use reta_os.Prelude.Int.{ℤ, pos}
use reta_os.Vfs.Node.{Node, Vfs, any_of, u32, to_int, write_at, o_append}
use reta_os.Vfs.Files.{
  put_file, advance, read, write, lseek, new_position, store_bytes, write_buffer,
}
use reta_os.Vfs.Files.Buffered.{
  Buffered, available, descriptor-Buffered, read-slice, put_file-Buffered,
}

take_append : (xs ys : List ℕ) → take (length xs) (xs ++ ys) ≡ xs
take_append [] ys = refl
take_append (x ∷ xs) ys = ap (λ l. x ∷ l) (take_append xs ys)

-- The bytes written at a place are found there.
pub take-drop-write_at :
    (buf : List ℕ) (p : ℕ) (bytes : List ℕ)
    → p ≤ length buf
    → take (length bytes) (drop p (write_at buf p bytes)) ≡ bytes
take-drop-write_at buf p bytes h = go buf p bytes (drop (p + length bytes) buf) h
  where
    go :
        (buf : List ℕ) (p : ℕ) (bytes rest : List ℕ)
        → p ≤ length buf
        → take (length bytes) (drop p (take p buf ++ (bytes ++ rest))) ≡ bytes
    go buf zero bytes rest h = take_append bytes rest
    go [] (suc p) bytes rest h = absurd (omega arith)
    go (x ∷ buf) (suc p) bytes rest h = go buf p bytes rest (omega arith)

-- The file after `bytes` were written at its position: `old` was its buffer.
pub written : Node → List ℕ → ℕ → List ℕ → Node
written node old size bytes = record node {
  position = node.position + length bytes;
  buffer = some (write_at old node.position bytes);
  size = size;
}

-- A file with the bit of O_APPEND among its own flags, without functions of its own, whose size and
-- position fit.
pub record Writable (v : Vfs) (fd : ℕ) (node : Node) (buffer fresh bytes : List ℕ) : Type 0 where
  pub buffered : Buffered v fd node buffer
  pub append : any_of node.flags o_append ≡ true
  pub no_write : node.ops.write ≡ none
  pub no_lseek : node.ops.lseek ≡ none
  pub fits : node.size ≤ length buffer
  pub place : node.position ≤ length buffer
  pub bound : node.size < 2 ^ 31
  pub end : node.position + length bytes < 2 ^ 31
  -- what `kmalloc` gives for a longer file
  pub memory : v.new_buffer (node.position + length bytes) ≡ some fresh
  pub fresh_length : length fresh ≡ node.position + length bytes

-- The buffer into which the bytes go, and the size afterwards.
pub target : Node → (buffer fresh : List ℕ) → ℕ → List ℕ
target node buffer fresh end =
    if ltb node.size end then write_at fresh 0 (take node.size buffer) else buffer

abbrev pub new_size : Node → ℕ → ℕ
new_size node end = if ltb node.size end then end else node.size

write-write_buffer :
    {v : Vfs} {fd : ℕ} {node : Node} {buffer fresh bytes : List ℕ} (result : ℤ × Vfs)
    → Writable v fd node buffer fresh bytes
    → write_buffer v fd node buffer bytes ≡ result
    → write v (pos fd) bytes ≡ result
unfolding write
write-write_buffer {v = v} {fd = fd} result w e =
    let found = descriptor-Buffered w.buffered in
    rw (write, found, w.buffered.file, w.no_write, w.append, w.buffered.bytes) e

write_buffer-written :
    {v : Vfs} {fd : ℕ} {node : Node} {buffer fresh bytes : List ℕ}
    → Writable v fd node buffer fresh bytes
    → let end = node.position + length bytes in
      write_buffer v fd node buffer bytes ≡ (
        pos (length bytes),
        put_file v fd (written node (target node buffer fresh end) (new_size node end) bytes),
      )
unfolding write_buffer store_bytes written target advance
write_buffer-written {v = v} {fd = fd} {node = node} {buffer = buffer} {fresh = fresh}
      {bytes = bytes} w =
    let length_fits : to_int (length bytes) ≡ pos (length bytes) = ground (arith, w.end) in
    let moved : u32 (node.position + length bytes) ≡ node.position + length bytes =
      ground (arith, w.end) in
    elim (Bool-cases (ltb node.size (node.position + length bytes))) [
      | inl grows ↦ rw (moved, grows, w.memory, moved, length_fits) refl
      | inr stays ↦ rw (moved, stays, length_fits) refl
    ]

-- `lseek` to an absolute place.
lseek-Buffered :
    {v : Vfs} {fd : ℕ} {node : Node} {buffer : List ℕ} (p : ℕ) (result : ℤ × Vfs)
    → Buffered v fd node buffer
    → node.ops.lseek ≡ none
    → p < 2 ^ 31
    → (pos p, put_file v fd (record node { position = p })) ≡ result
    → lseek v (pos fd) (pos p) 0 ≡ result
unfolding lseek new_position
lseek-Buffered p result b no_lseek bound e =
    let found = descriptor-Buffered b in
    let fits : to_int p ≡ pos p = ground (arith, bound) in rw (lseek, found, no_lseek, fits) e

place-target :
    {v : Vfs} {fd : ℕ} {node : Node} {buffer fresh bytes : List ℕ}
    → Writable v fd node buffer fresh bytes
    → node.position ≤ length (target node buffer fresh (node.position + length bytes))
unfolding target
place-target {node = node} {buffer = buffer} {fresh = fresh} {bytes = bytes} w = ground (
  arith,
  w.place,
  w.fresh_length,
  length-append (take node.size buffer) (drop (length (take node.size buffer)) fresh),
  length-drop (length (take node.size buffer)) fresh,
  length-take node.size buffer,
)

-- What was written is read back: for a file in memory that has the bit of O_APPEND among its own
-- flags and no functions of its own, whose size and position lie within its buffer and below 2 GB,
-- also at the end of the write, and for which `kmalloc` gives memory, writing some bytes, seeking
-- back to where the write began and reading as many bytes succeeds and gives the bytes written,
-- whether the file grows or not. The open flags do not set that bit.
read-write :
    {v : Vfs} {fd : ℕ} {node : Node} {buffer fresh bytes : List ℕ}
    → Writable v fd node buffer fresh bytes
    → 0 < length bytes
    → let (r, v₁) = write v (pos fd) bytes in
      let (at, v₂) = lseek v₁ (pos fd) (pos node.position) 0 in
      let (got, back, v₃) = read v₂ (pos fd) (length bytes) in
      (r ≡ pos (length bytes))
      × (at ≡ pos node.position)
      × (got ≡ pos (length bytes))
      × (back ≡ bytes)
unfolding written
read-write {v = v} {fd = fd} {node = node} {buffer = buffer} {fresh = fresh} {bytes = bytes} w
      some_bytes =
    let end = node.position + length bytes in
    let old = target node buffer fresh end in
    let size = new_size node end in
    let new = write_at old node.position bytes in
    let after = written node old size bytes in
    let b = w.buffered in
    let v₁ = put_file v fd after in
    let wrote = write-write_buffer (pos (length bytes), v₁) w (write_buffer-written w) in
    let b₁ = put_file-Buffered after b b.name b.file b.no_read refl in
    let back = record after { position = node.position } in
    let v₂ = put_file v₁ fd back in
    let sought =
      lseek-Buffered node.position (pos node.position, v₂) b₁ w.no_lseek (omega (arith, w.end))
        refl in
    let b₂ = put_file-Buffered back b₁ b.name b.file b.no_read refl in
    let read_back =
      read-slice (length bytes) b₂ (ground (arith, w.bound, w.end)) (ground (arith, some_bytes))
        (omega (arith, w.end)) in
    let amount : available back (length bytes) ≡ length bytes = ground arith in
    rw (wrote, sought, read_back, amount)
      (refl, refl, refl, take-drop-write_at old node.position bytes (place-target w))
