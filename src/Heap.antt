-- ===== src/Heap.antt =====
-- kernel/kheap.c: the kernel heap, a list of blocks with headers of 12 bytes in memory. The model
-- keeps the headers, in the order of their `next` pointers; the bytes of the payloads are left
-- out, and the copies and fills that the code makes in them are returned as values.
mod Tests
pub mod Tiles
pub mod Alloc
pub mod Free
pub mod RoundTrip
pub mod Limits
use reta_os.Prelude.{
  ℕ, ◌+◌, ◌-◌, ◌*◌, ◌%◌, ◌^◌, Bool, true, false, not, ◌&&◌, ◌||◌, Option, none, some, List, [], ◌∷◌,
  ◌++◌, ltb, leb, ◌==◌, if◌then◌else◌,
}
use reta_os.Prelude.Maybe.{◌>>=◌}
use Prim.Native.Nat.{bit_and}

-- `heap_block_t`, at its address.
pub record Block : Type 0 where
  pub addr : ℕ
  pub size : ℕ
  pub used : Bool

-- sizeof(heap_block_t) on i386
abbrev pub header : ℕ
header = 12

abbrev pub kheap_align : ℕ
kheap_align = 0x1000

abbrev pub u32 : ℕ → ℕ
u32 n = n % 2 ^ 32

-- The static variables of the file. `kheap_inited` is set from the first call on.
pub record Heap : Type 0 where
  pub blocks : List Block
  pub kheap_start : ℕ
  pub kheap_end : ℕ
  pub kheap_max : ℕ

-- `kheap_init`, on its first call. (It calls `pmm_init`, which changes nothing here.)
abbrev pub init : Heap
init = record {
  blocks = record { addr = 0xC000_0000; size = 0x100000 - header; used = false } ∷ [];
  kheap_start = 0xC000_0000;
  kheap_end = 0xC000_0000 + 0x100000;
  kheap_max = 0xC000_0000 + 0xFFFFF;
}

pub align_up : (addr align : ℕ) → ℕ
align_up addr align = bit_and (u32 (addr + align - 1)) (2 ^ 32 - align)

-- What `kmalloc` makes of the block that it found: the block in use, and the rest if it is split.
pub split : ℕ → Block → List Block
split size b =
    if ltb (u32 (size + header + 4)) b.size
    then record { addr = b.addr; size = size; used = true }
      ∷ record { addr = b.addr + header + size; size = b.size - size - header; used = false }
      ∷ []
    else record b { used = true } ∷ []

abbrev pub fits : ℕ → Block → Bool
fits size b = not b.used && leb size b.size

-- The search of `kmalloc` through the list: the payload's address and the list after it.
pub first_fit : ℕ → List Block → Option (ℕ × List Block)
first_fit size [] = none
first_fit size (b ∷ bs) =
    let rest = (do (p, bs') ← first_fit size bs; some (p, b ∷ bs')) in
    if fits size b then some (b.addr + header, split size b ++ bs) else rest

-- The smallest size that `kmalloc` serves is that of a pointer.
abbrev pub request : ℕ → ℕ
request size = if ltb size 4 then 4 else size

-- The end of `kmalloc`, where no block fits: a new block behind the heap. 0 is NULL.
pub expand : ℕ → Heap → ℕ × Heap
expand size h =
    let new_size = align_up (u32 (size + header)) kheap_align in
    if ltb h.kheap_max (u32 (h.kheap_end + new_size)) then (0, h) else (
      h.kheap_end + header,
      record h {
        blocks = h.blocks ++ record { addr = h.kheap_end; size = size; used = true } ∷ [];
        kheap_end = u32 (h.kheap_end + new_size);
      },
    )

pub kmalloc : ℕ → Heap → ℕ × Heap
kmalloc size h = elim (first_fit (request size) h.blocks) [
  | none ↦ expand (request size) h
  | some (p, bs) ↦ (p, record h { blocks = bs })
]

-- The write of `kfree` to the header before the pointer; `none` where no header stands there.
pub release : ℕ → List Block → Option (List Block)
release at [] = none
release at (b ∷ bs) =
    let rest = (do bs' ← release at bs; some (b ∷ bs')) in
    if b.addr == at then some (record b { used = false } ∷ bs) else rest

-- The merge loop of `kfree`, with `current` and the blocks behind it.
pub merge : Block → List Block → List Block
merge current [] = current ∷ []
merge current (b ∷ bs) =
    let joined = merge (record current { size = current.size + (b.size + header) }) bs in
    let apart = current ∷ merge b bs in if not current.used && not b.used then joined else apart

pub coalesce : List Block → List Block
coalesce [] = []
coalesce (b ∷ bs) = merge b bs

pub kfree : ℕ → Heap → Option Heap
kfree ptr h =
    if ptr == 0 || ltb ptr h.kheap_start || leb h.kheap_end ptr
    then some h
    else (do bs ← release (ptr - header) h.blocks; some (record h { blocks = coalesce bs }))

pub block_size : ℕ → List Block → Option ℕ
block_size at [] = none
block_size at (b ∷ bs) = let rest = block_size at bs in if b.addr == at then some b.size else rest

-- `memcpy(to, from, count)`
pub record Copy : Type 0 where
  pub to : ℕ
  pub from : ℕ
  pub count : ℕ

pub krealloc : (ptr size : ℕ) → Heap → Option (ℕ × List Copy × Heap)
krealloc ptr size h =
    if ptr == 0
    then (let (p, h') = kmalloc size h in some (p, [], h'))
    else (if size == 0 then (do h' ← kfree ptr h; some (0, [], h')) else do
      old ← block_size (ptr - header) h.blocks
      if leb size old
          then some (ptr, [], h)
          else (let (p, h') = kmalloc size h in
              if p == 0 then some (0, [], h') else (do
                h'' ← kfree ptr h'
                some (p, record { to = p; from = ptr; count = old } ∷ [], h''))))

-- The pointer, the number of bytes set to zero there, and the heap.
pub kcalloc : (num size : ℕ) → Heap → ℕ × ℕ × Heap
kcalloc num size h =
    let total = u32 (num * size) in
    let (p, h') = kmalloc total h in if p == 0 then (0, 0, h') else (p, total, h')

pub kmalloc_a : ℕ → Heap → ℕ × Heap
kmalloc_a size h = kmalloc (align_up size kheap_align) h

-- The address and what is stored through `phys`.
pub kmalloc_ap : ℕ → Heap → ℕ × ℕ × Heap
kmalloc_ap size h =
    let (addr, h') = kmalloc_a size h in (addr, u32 (addr + 2 ^ 32 - 0xC000_0000), h')
