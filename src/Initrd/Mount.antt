-- ===== src/Initrd/Mount.antt =====
-- The walk of `mount_initrd` over the archive and `initrd_mount_from_block`, kernel/initrd.c.
use reta_os.Prelude.{
  ℕ, zero, suc, ◌+◌, ◌-◌, ◌*◌, ◌/◌, ◌%◌, Bool, not, ◌&&◌, ◌||◌, Option, none, some, List, [], ◌∷◌,
  ltb, leb, ◌==◌, if◌then◌else◌, get_or,
}
use reta_os.Prelude.Int.{ℤ, pos, minus, is_zero, is_neg}
use reta_os.Vfs.Node.{Ptr, einval, enomem, s_ifdir, u32}
use reta_os.Initrd.{Store, no_node, header_at, add_entry, allocate, put}

-- `off += 512 + ((size + 511) & ~511)`
unfoldable pub next_off : (off size : ℕ) → ℕ
next_off off size = u32 (off + 512 + (u32 (size + 511) - u32 (size + 511) % 512))

-- The loop of `mount_initrd`; `none` is fuel that ran out.
unfoldable pub walk :
    ℕ → (img : List ℕ) → (bytes : ℕ) → (root : Ptr) → (off : ℕ) → Store → Option Store
walk zero img bytes root off st = none
walk (suc fuel) img bytes root off st =
    let h = header_at img off in
    let further = walk fuel img bytes root (next_off off h.size) (add_entry root off h st) in
    if leb (u32 (off + 512)) bytes && not (get_or img off 0 == 0) then further else some st

-- `mount_initrd` of an image: the result, the root (0 where it is not set), and the nodes.
unfoldable pub mount_initrd : ℕ → (img : List ℕ) → (bytes : ℕ) → Store → Option (ℤ × Ptr × Store)
mount_initrd fuel img bytes st =
    let (root, st') = allocate st in
    let root_node = record no_node { name = b'/' ∷ []; flags = s_ifdir + 0o755 } in
    let walked : Option (ℤ × Ptr × Store) =
      elim (walk fuel img bytes root 0 (put st' root root_node)) [
        | none ↦ none
        | some made ↦ some (pos 0, root, made)
      ] in
    if ltb bytes 512
    then some (minus einval, 0, st)
    else if root == 0
    then some (minus enomem, 0, st')
    else walked

-- `initrd_mount_from_block`: `memory` tells whether `kmalloc` gives the buffer, and `blk_read` is
-- `blk_read_byname` of the device, with the sectors that it reads.
pub initrd_mount_from_block :
    ℕ
    → (blk_read : ℕ → ℕ → ℤ × List ℕ) → (memory : Bool) → (start_lba max_sectors max_bytes_cap : ℕ)
    → Store
    → Option (ℤ × Ptr × Store)
initrd_mount_from_block fuel blk_read memory start_lba max_sectors max_bytes_cap st =
    let cap = max_bytes_cap / 512 in
    let to_read = if ltb cap max_sectors then cap else max_sectors in
    let (rc, img) = blk_read start_lba to_read in
    let mounted : Option (ℤ × Ptr × Store) = elim (mount_initrd fuel img (u32 (to_read * 512)) st) [
      | none ↦ none
      | some (ret, root, made) ↦ some (if is_neg ret then minus 1 else pos 0, root, made)
    ] in
    if max_sectors == 0 || to_read == 0 || not memory
    then some (minus 1, 0, st)
    else if not (is_zero rc)
    then some (rc, 0, st)
    else mounted
