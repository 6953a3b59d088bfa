-- ===== src/Initrd.antt =====
-- kernel/initrd.c: the initial RAM disk, a tar archive whose files become nodes of a file system. The
-- nodes stand in a store by address; `kmalloc` is given by the addresses that it will return, 0 or
-- none left being NULL. Messages are left out.
mod Tests
pub mod Mount
pub mod Octal
pub mod Walk
pub mod Read
use reta_os.Prelude.{
  ℕ, zero, suc, ◌+◌, ◌-◌, ◌*◌, ◌/◌, ◌%◌, ◌^◌, Bool, true, false, not, ◌&&◌, ◌||◌, Option, none,
  some, List, [], ◌∷◌, ◌++◌, ltb, leb, ◌==◌, if◌then◌else◌, take, drop, get_or, length,
}
use reta_os.Prelude.Int.{ℤ, pos, minus, is_zero, is_neg}
use reta_os.Text.{strrchr}
use reta_os.Vfs.Node.{
  Ptr, eio, einval, enomem, enotdir, s_ifdir, s_ifmt, any_of, same_name, u32, to_int,
}
use reta_os.Vfs.Lookup.{text_of}
use Prim.Native.Nat.{bit_and}

abbrev pub s_ifreg : ℕ
s_ifreg = 0o100000

-- `parse_octal` on the bytes of a field, with the value so far.
unfoldable pub parse_octal : List ℕ → ℕ → ℕ
parse_octal [] val = val
parse_octal (c ∷ str) val =
    let further = parse_octal str (u32 (val * 8 + (c - b'0'))) in
    if c == 0 || ltb c b'0' || ltb b'7' c then val else further

-- `tar_file_meta_t`
pub record Meta : Type 0 where
  pub size : ℕ
  pub data_off : ℕ

-- The fields of a node that the file sets. All nodes get `tar_open` and `tar_close`; those of
-- directories get `tar_readdir` and `tar_finddir`, those of files `tar_read`.
pub record TarNode : Type 0 where
  pub name : List ℕ
  pub flags : ℕ
  pub size : ℕ
  pub content : Option Meta
  pub parent : Ptr
  pub children : List Ptr

abbrev pub no_node : TarNode
no_node = record { name = []; flags = 0; size = 0; content = none; parent = 0; children = [] }

pub record Store : Type 0 where
  pub nodes : Ptr → TarNode
  pub new_nodes : List Ptr

-- `kmalloc`
unfoldable pub allocate : Store → Ptr × Store
allocate st = elim (st.new_nodes) [ [] ↦ (0, st) | p ∷ ps ↦ (p, record st { new_nodes = ps }) ]

abbrev pub put : Store → Ptr → TarNode → Store
put st p n = record st { nodes = λ q. if q == p then n else st.nodes q }

-- `vfs_node_add_child`, the child put in front.
unfoldable pub vfs_node_add_child : Ptr → Ptr → Store → Store
vfs_node_add_child parent child st =
    let dir = st.nodes parent in put st parent (record dir { children = child ∷ dir.children })

-- `n` bytes of the image, from byte `from` on, and `n` as a 32-bit `ssize_t`; `none` is a read
-- outside the image.
abbrev pub copy_out : (img : List ℕ) (from n : ℕ) → Option (ℤ × List ℕ)
copy_out img from n =
    if ltb (length img) (from + n) then none else some (to_int n, take n (drop from img))

-- `tar_read` of a file of the image `img`.
unfoldable pub tar_read : (img : List ℕ) → Option Meta → (offset count : ℕ) → Option (ℤ × List ℕ)
tar_read img none offset count = some (minus eio, [])
tar_read img (some meta) offset count =
    let remaining = meta.size - offset in
    let to_read = if ltb count remaining then count else remaining in
    let copied = copy_out img (meta.data_off + offset) to_read in
    if leb meta.size offset then some (pos 0, []) else copied

-- `tar_open`, `tar_close` and `tar_finddir`
abbrev pub tar_open : (flags : ℕ) → ℤ
tar_open flags = pos 0

abbrev pub tar_close : ℤ
tar_close = pos 0

abbrev pub tar_finddir : List ℕ → ℤ
tar_finddir name = minus enotdir

-- `if (p[0]=='.' && p[1]=='/') p+=2`
unfoldable pub norm_name : List ℕ → List ℕ
norm_name nm = if get_or nm 0 0 == b'.' && get_or nm 1 0 == b'/' then drop 2 nm else nm

abbrev pub is_empty : List ℕ → Bool
is_empty [] = true
is_empty (c ∷ s) = false

-- Without the slashes at the end.
unfoldable pub strip_slashes : List ℕ → List ℕ
strip_slashes [] = []
strip_slashes (c ∷ s) =
    let rest = strip_slashes s in if c == b'/' && is_empty rest then [] else c ∷ rest

-- The components, of which `part` is the beginning of the first, cut to the size of a name.
unfoldable pub parts_from : (part : List ℕ) → List ℕ → List (List ℕ)
parts_from part [] = if is_empty part then [] else take 255 part ∷ []
parts_from part (c ∷ s) =
    let next = parts_from [] s in
    let longer = parts_from (part ++ (c ∷ [])) s in
    if c == b'/' then (if is_empty part then next else take 255 part ∷ next) else longer

-- The child directory of that name.
unfoldable pub find_dir : (Ptr → TarNode) → List Ptr → List ℕ → Option Ptr
find_dir nodes [] comp = none
find_dir nodes (p ∷ ps) comp =
    let rest = find_dir nodes ps comp in
    if any_of (nodes p).flags s_ifdir && same_name (nodes p).name comp then some p else rest

-- A new directory below `cur`.
unfoldable pub make_dir : Ptr → (comp : List ℕ) → Ptr → Store → Store
make_dir cur comp ch st =
    vfs_node_add_child cur ch
      (put st ch (record no_node { name = comp; flags = s_ifdir + 0o755; parent = cur }))

-- The loop of `ensure_dir` over the components: the last directory.
unfoldable pub descend : Ptr → List (List ℕ) → Store → Ptr × Store
descend cur [] st = (cur, st)
descend cur (comp ∷ comps) st = elim (find_dir st.nodes (st.nodes cur).children comp) [
  | some ch ↦ descend ch comps st
  | none ↦
      let (ch, st') = allocate st in
      if ch == 0 then (cur, st') else descend ch comps (make_dir cur comp ch st')
]

-- `ensure_dir`
unfoldable pub ensure_dir : Ptr → List ℕ → Store → Ptr × Store
ensure_dir base dirpath st =
    descend base (parts_from [] (strip_slashes (norm_name (take 4095 dirpath)))) st

-- The fields of `struct tar_header` that are read, for the header at byte `off` of the image. The name
-- is the string that begins there.
pub record Header : Type 0 where
  pub name : List ℕ
  pub size : ℕ
  pub mode : ℕ
  pub typeflag : ℕ

unfoldable pub header_at : List ℕ → ℕ → Header
header_at img off = record {
  name = text_of (drop off img);
  size = parse_octal (take 12 (drop (off + 124) img)) 0;
  mode = bit_and (parse_octal (take 8 (drop (off + 100) img)) 0) 0o777;
  typeflag = get_or img (off + 156) 0;
}

-- The directory part and the last component of a path.
unfoldable pub split_name : List ℕ → List ℕ × List ℕ
split_name pth = elim (strrchr pth b'/') [
  | none ↦ ([], take 255 pth)
  | some slash ↦ (take 4095 (take (length pth - length slash) pth), take 255 (drop 1 slash))
]

-- A regular file of the archive.
unfoldable pub add_file : Ptr → (off : ℕ) → Header → Store → Store
add_file root off h st =
    let (dirpart, base) = split_name (norm_name h.name) in
    let (parent, st₁) = ensure_dir root dirpart st in
    let (node, st₂) = allocate st₁ in
    let (meta, st₃) = allocate st₂ in
    let file = record no_node {
      name = base;
      flags = s_ifreg + (if h.mode == 0 then 0o644 else h.mode);
      size = h.size;
      content = some (record { size = h.size; data_off = off + 512 });
      parent = parent;
    } in
    if node == 0
    then st₂
    else (if meta == 0 then st₃ else vfs_node_add_child parent node (put st₃ node file))

-- A directory of the archive, with its permissions.
unfoldable pub add_dir : Ptr → Header → Store → Store
add_dir root h st =
    let (dir, st') = ensure_dir root h.name st in
    let node = st'.nodes dir in
    let format = bit_and node.flags s_ifmt in
    if format == s_ifdir && not (h.mode == 0)
    then put st' dir (record node { flags = format + h.mode })
    else st'

unfoldable pub add_entry : Ptr → (off : ℕ) → Header → Store → Store
add_entry root off h st =
    if h.typeflag == b'0' || h.typeflag == 0
    then add_file root off h st
    else if h.typeflag == b'5'
    then add_dir root h st
    else st
