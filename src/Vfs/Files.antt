-- ===== src/Vfs/Files.antt =====
-- The descriptor table of kernel/vfs.c: `vfs_open`, `vfs_close`, `vfs_read`, `vfs_write`,
-- `vfs_lseek`, `vfs_size`, `vfs_read_all`. A function returns its result and the new state; what
-- `vfs_read` puts into the caller's buffer stands beside the result. The pointers that callers pass
-- are not NULL; the code answers -EINVAL to those. Functions that look a path up return `none`
-- where the links on it are a longer chain than the fuel.
pub mod Bounded
pub mod Rejects
pub mod Buffered
pub mod RoundTrip
pub mod Slots
pub mod Opening
pub mod Writing
pub mod Driver
use reta_os.Prelude.{
  ℕ, zero, suc, ◌+◌, ◌-◌, ◌%◌, ◌^◌, Bool, true, false, not, ◌&&◌, ◌||◌, Option, none, some, List,
  [], ◌∷◌, ◌++◌, ltb, leb, ◌==◌, if◌then◌else◌, length, get_or, set, take, drop, replicate,
}
use reta_os.Prelude.Int.{ℤ, pos, negsuc, minus, is_zero, is_neg, pos_part, neg_part}
use reta_os.Prelude.Maybe.{◌>>=◌}
use reta_os.Text.{strrchr}
use reta_os.Vfs.Node.{
  Node, Vfs, FileOps, Ptr, zero_node, enoent, eio, ebadf, enomem, eacces, eexist, enotdir, eisdir,
  einval, emfile, erofs, enametoolong, ft_dir, o_rdonly, o_wronly, o_rdwr, o_accmode, o_creat,
  o_excl, o_trunc, o_append, max_open_files, any_of, u32, to_int, named, write_at,
}
use Prim.Native.Nat.{bit_and}
use reta_os.Vfs.Create.{split_path, create}
use reta_os.Vfs.Lookup.{Found, found, failed, unfinished, lookup, slash}

-- `fd < 0 || fd >= MAX_OPEN_FILES || !open_files[fd].name[0]` fails: the descriptor's number and node.
pub descriptor : Vfs → ℤ → Option (ℕ × Node)
descriptor v (negsuc n) = none
descriptor v (pos fd) =
    let node = get_or v.open_files fd zero_node in
    if leb max_open_files fd || not (named node) then none else some (fd, node)

-- `open_files[fd] = node`
pub put_file : Vfs → ℕ → Node → Vfs
put_file v fd node = record v { open_files = set v.open_files fd node }

-- `node->position += result`
pub advance : Node → ℕ → Node
advance node k = record node { position = u32 (node.position + k) }

-- The result, the bytes in `buf`, and the state.
abbrev pub ReadResult : Type 0
ReadResult = ℤ × List ℕ × Vfs

-- What follows a call of the node's own function.
abbrev pub after_function : Vfs → ℕ → Node → ℤ × List ℕ → ReadResult
after_function v fd node (pos k, bytes) = (pos k, bytes, put_file v fd (advance node k))
after_function v fd node (negsuc k, bytes) = (negsuc k, bytes, v)

-- Reading by the node's own function, if it has one, or from its buffer.
abbrev pub read_with :
    Vfs → ℕ → Node → ℕ → Option (ℕ → ℕ → ℤ × List ℕ) → Option (List ℕ) → ReadResult
read_with v fd node to_read (some read) content =
    after_function v fd node (read node.position to_read)
read_with v fd node to_read none none = (minus eio, [], v)
read_with v fd node to_read none (some buffer) =
    (to_int to_read, take to_read (drop node.position buffer), put_file v fd (advance node to_read))

-- The part of `vfs_read` behind its checks, for `to_read` bytes.
pub read_node : Vfs → ℕ → Node → ℕ → ReadResult
read_node v fd node to_read = read_with v fd node to_read node.ops.read node.buffer

pub readable : Node → Bool
readable node = elim (node.ops.read) [
  | some read ↦ true
  | none ↦ elim (node.buffer) [ none ↦ false | some b ↦ true ]
]

-- `vfs_read` for an open descriptor.
pub read_open : Vfs → (count fd : ℕ) → Node → ReadResult
read_open v count fd node =
    let to_read =
      if ltb node.size (u32 (node.position + count)) then node.size - node.position else count in
    if any_of node.flags ft_dir
    then (minus eisdir, [], v)
    else (if not (readable node)
        then (minus ebadf, [], v)
        else (if leb node.size node.position then (pos 0, [], v) else read_node v fd node to_read))

pub read : Vfs → ℤ → ℕ → ReadResult
read v fd count = elim (descriptor v fd) [
  | none ↦ (minus ebadf, [], v)
  | some (i, node) ↦ read_open v count i node
]

-- The copy of `bytes` to `buffer` at the position, which moves behind them.
pub store_bytes : Vfs → ℕ → Node → List ℕ → ℕ → List ℕ → ℤ × Vfs
store_bytes v fd node buffer size bytes = (
  to_int (length bytes),
  put_file v fd (record (advance node (length bytes)) {
    buffer = some (write_at buffer node.position bytes);
    size = size;
  }),
)

-- The in-memory part of `vfs_write`: a buffer that is too short is replaced by one that ends where
-- the write does.
pub write_buffer : Vfs → ℕ → Node → List ℕ → List ℕ → ℤ × Vfs
write_buffer v fd node buffer bytes =
    let end = u32 (node.position + length bytes) in
    if ltb node.size end
    then (elim (v.new_buffer end) [
      | none ↦ (minus enomem, v)
      | some fresh ↦ store_bytes v fd node (write_at fresh 0 (take node.size buffer)) end bytes
    ])
    else store_bytes v fd node buffer node.size bytes

pub write : Vfs → ℤ → List ℕ → ℤ × Vfs
write v fd bytes = elim (descriptor v fd) [
  | none ↦ (minus ebadf, v)
  | some (i, node) ↦
      if any_of node.flags ft_dir then (minus eisdir, v) else (elim (node.ops.write) [
        | some write_fn ↦ elim (write_fn node.position bytes) [
          | pos k ↦
              let moved = advance node k in
              let size = if ltb node.size moved.position then moved.position else node.size in
              (pos k, put_file v i (if k == 0 then node else record moved { size = size }))
          | negsuc k ↦ (negsuc k, v)
        ]
        | none ↦
            if not (any_of node.flags o_append) then (minus ebadf, v) else (elim (node.buffer) [
              | none ↦ (minus erofs, v)
              | some buffer ↦ write_buffer v i node buffer bytes
            ])
      ])
]

-- The first free slot from `fd` on.
unfoldable pub free_slot : List Node → ℕ → Option ℕ
free_slot [] fd = none
free_slot (n ∷ ns) fd = let rest = free_slot ns (fd + 1) in if named n then rest else some fd

-- Access checks of `vfs_open`: the error for these flags of the node and of the call, or 0.
unfoldable pub access_error : (node_flags flags : ℕ) → ℕ
access_error node_flags flags =
    let mode = bit_and flags o_accmode in
    if any_of node_flags ft_dir && any_of flags 0x0003
    then eisdir
    else (if mode == o_rdonly && not (any_of node_flags 0o444)
        then eacces
        else (if mode == o_wronly && not (any_of node_flags 0o222)
            then eacces
            else (if mode == o_rdwr && not (any_of node_flags 0o666)
                then eacces
                else (if any_of flags o_excl && any_of flags o_creat then eexist else 0))))

-- Truncation in `vfs_open`: the node after it, or the error.
pub truncated : Node → ℕ → ℤ × Node
truncated node flags =
    if any_of flags o_trunc && not (bit_and flags o_accmode == o_rdonly)
    then (if any_of node.flags o_trunc
        then (pos 0, record node { size = 0 })
        else (elim (node.ops.write) [
          | none ↦ (pos 0, node)
          | some write_fn ↦ (write_fn 0 [], node)
        ]))
    else (pos 0, node)

-- The end of `vfs_open`: the node goes into slot `fd`, at its start or its end.
pub install : Vfs → ℕ → ℕ → Node → ℤ × Vfs
install v fd flags node =
    let placed = record node { position = if any_of flags o_append then node.size else 0 } in
    elim (node.ops.open_node) [
      | none ↦ (pos fd, put_file v fd placed)
      | some open_fn ↦
          let ret = open_fn flags in
          if is_zero ret then (pos fd, put_file v fd placed) else (ret, put_file v fd zero_node)
    ]

-- `vfs_open` from the checks on the node on.
pub open_node : Vfs → ℕ → ℕ → Node → ℤ × Vfs
open_node v fd flags node =
    let e = access_error node.flags flags in
    if not (e == 0)
    then (minus e, v)
    else (let (ret, node') = truncated node flags in
        if is_neg ret then (ret, v) else install v fd flags node')

-- `vfs_open` where the file was not found and is to be created.
pub open_new : ℕ → Vfs → List ℕ → ℕ → ℕ → Option (ℤ × Vfs)
open_new fuel v path flags fd = elim (split_path path) [
  | none ↦ some (minus enametoolong, v)
  | some (dir, name) ↦ elim (lookup fuel v dir) [
    | unfinished ↦ none
    | failed e ↦ some (minus enoent, v)
    | found parent ↦
        if not (any_of parent.flags ft_dir)
        then some (minus enotdir, v)
        else (if not (any_of parent.flags 0o222) then some (minus eacces, v) else (do
          (ret, v') ← create fuel v path 0o666
          if not (is_zero ret) then some (ret, v') else (elim (lookup fuel v' path) [
            | unfinished ↦ none
            | failed e ↦ some (minus e, v')
            | found node ↦ some (open_node v' fd flags node)
          ])))
  ]
]

pub open_file : ℕ → Vfs → List ℕ → ℕ → Option (ℤ × Vfs)
open_file fuel v path flags = elim (free_slot v.open_files 0) [
  | none ↦ some (minus emfile, v)
  | some fd ↦ elim (lookup fuel v path) [
    | unfinished ↦ none
    | failed e ↦
        if any_of flags o_creat then open_new fuel v path flags fd else some (minus enoent, v)
    | found node ↦ some (open_node v fd flags node)
  ]
]

pub close : Vfs → ℤ → ℤ × Vfs
close v fd = elim (descriptor v fd) [
  | none ↦ (minus ebadf, v)
  | some (i, node) ↦
      (elim (node.ops.close_node) [ none ↦ pos 0 | some ret ↦ ret ], put_file v i zero_node)
]

-- The new position as a 32-bit pattern, for each `whence`; `offset` is an `off_t`.
pub new_position : Node → ℤ → ℕ → Option ℤ
new_position node offset whence =
    let from = λ (base : ℕ). to_int (u32 (base + pos_part offset + 2 ^ 32 - neg_part offset)) in
    if whence == 0
    then some offset
    else (if whence == 1
        then some (from node.position)
        else (if whence == 2 then some (from node.size) else none))

pub lseek : Vfs → ℤ → ℤ → ℕ → ℤ × Vfs
lseek v fd offset whence = elim (descriptor v fd) [
  | none ↦ (minus ebadf, v)
  | some (i, node) ↦ elim (new_position node offset whence) [
    | none ↦ (minus einval, v)
    | some (negsuc k) ↦ (minus einval, v)
    | some (pos k) ↦ elim (node.ops.lseek) [
      | some lseek_fn ↦ (lseek_fn offset whence, v)
      | none ↦ (to_int k, put_file v i (record node { position = k }))
    ]
  ]
]

pub size : Vfs → ℤ → ℤ
size v fd = elim (descriptor v fd) [ none ↦ minus ebadf | some (i, node) ↦ to_int node.size ]

-- The result and the `*out_len` bytes of the buffer before the terminator that it gets.
pub read_all : ℕ → Vfs → List ℕ → ℕ → Option (ℤ × List ℕ × Vfs)
read_all fuel v path maxlen = if maxlen == 0 then some (minus einval, [], v) else (do
  (fd, v₁) ← open_file fuel v path o_rdonly
  if is_neg fd
      then some (fd, [], v₁)
      else (let (got, bytes, v₂) = read v₁ fd (maxlen - 1) in
          let (closed, v₃) = close v₂ fd in
          some (if is_neg got then got else if is_neg closed then closed else pos 0, bytes, v₃)))
