-- ===== src/Frames.antt =====
-- memory/pmm.c: the physical frame allocator over a bitmap of 32-bit words, one bit for a frame of
-- 4 KB. Functions return `none` where the C code reads or writes outside `bitmap`.
pub mod Bitmap
pub mod Alloc
pub mod Regions
pub mod Init
mod Tests
use Bitmap.{set_frame, clear_frame, test_frame}
use reta_os.Prelude.{
  ℕ, zero, suc, ◌+◌, ◌-◌, ◌*◌, ◌/◌, ◌%◌, ◌^◌, Bool, true, false, not, ◌&&◌, Option, none, some,
  List, [], ◌∷◌, ltb, leb, ◌==◌, if◌then◌else◌, replicate,
}
use reta_os.Prelude.Maybe.{◌>>=◌}

abbrev pub frame_size : ℕ
frame_size = 4096

abbrev pub max_frames : ℕ
max_frames = 32768

-- The static variables of the file.
pub record Pmm : Type 0 where
  pub total_frames : ℕ
  pub used_frames : ℕ
  pub highest_frame_index : ℕ
  pub bitmap : List ℕ

abbrev u32 : ℕ → ℕ
u32 n = n % 2 ^ 32

-- One round of the loops that mark frames: a used frame stays, a free one is set and counted.
pub mark_frame : Pmm → ℕ → Option Pmm
mark_frame p f = do
  used ← test_frame p.bitmap f
  if used then some p else do
    bits ← set_frame p.bitmap f
    some (record p { bitmap = bits; used_frames = u32 (p.used_frames + 1) })

-- `left` rounds from frame `f` on.
pub mark_frames : (left f : ℕ) → Pmm → Option Pmm
mark_frames zero f p = some p
mark_frames (suc left) f p = mark_frame p f >>= mark_frames left (f + 1)

pub reserve_range : (start_addr end_addr : ℕ) → Pmm → Option Pmm
reserve_range start_addr end_addr p =
    if leb end_addr start_addr
    then some p
    else (let start_frame = start_addr / frame_size in
        let end_frame = u32 (end_addr + frame_size - 1) / frame_size in
        mark_frames (end_frame - start_frame) start_frame p)

pub mark_used_region : (base size : ℕ) → Pmm → Option Pmm
mark_used_region base size p =
    if size == 0
    then some p
    else (let start_frame = base / frame_size in
        let end_frame = u32 (base + size + frame_size - 1) / frame_size in
        mark_frames (end_frame - start_frame) start_frame p)

-- `clear_frame` for `left` frames from `f` on.
pub clear_frames : (left f : ℕ) → List ℕ → Option (List ℕ)
clear_frames zero f bits = some bits
clear_frames (suc left) f bits = clear_frame bits f >>= clear_frames left (f + 1)

-- `struct multiboot_mmap_entry`, and the tags that `pmm_init` walks over up to the end tag.
pub record MmapEntry : Type 0 where
  pub addr : ℕ
  pub len : ℕ
  pub type : ℕ

pub data Tag : Type 0 where
  mmap : List MmapEntry → Tag
  other : Tag

abbrev cap32 : ℕ → ℕ
cap32 n = if ltb 0xFFFF_FFFF n then 0xFFFF_FFFF else n

-- One entry of the memory map: an available region raises the highest index and frees its frames.
pub add_region : MmapEntry → Pmm → Option Pmm
add_region e p =
    let region_end = cap32 ((e.addr + e.len) % 2 ^ 64) in
    let region_start = cap32 e.addr in
    let end_frame = region_end / frame_size in
    let start_frame = region_start / frame_size in
    if (e.type == 1) && ltb region_start region_end
    then (do
      bits ← clear_frames (end_frame - start_frame) start_frame p.bitmap
      some (record p {
        bitmap = bits;
        highest_frame_index =
            if ltb p.highest_frame_index end_frame then end_frame else p.highest_frame_index;
      }))
    else some p

pub add_regions : List MmapEntry → Pmm → Option Pmm
add_regions [] p = some p
add_regions (e ∷ es) p = add_region e p >>= add_regions es

-- Only the first memory map tag counts.
pub walk_tags : List Tag → Pmm → Option Pmm
walk_tags [] p = some p
walk_tags (mmap es ∷ tags) p = add_regions es p
walk_tags (other ∷ tags) p = walk_tags tags p

pub all_used : List ℕ
all_used = replicate 1024 0xFFFF_FFFF

-- The branch with no memory map: frames below `highest_frame_index` and MAX_FRAMES are freed.
pub fallback_map : ℕ → Pmm → Option Pmm
fallback_map mem_upper_kb p = do
  let total_kb = u32 (1024 + mem_upper_kb)
  let highest = u32 (total_kb * 1024) / frame_size
  bits ← clear_frames (if ltb highest max_frames then highest else max_frames) 0 p.bitmap
  some (record p { bitmap = bits; highest_frame_index = highest })

-- `has_mmap` is bit 6 of `mbi->flags`.
pub init :
    (mem_upper_kb kernel_start kernel_end : ℕ) (has_mmap : Bool) → List Tag → Pmm → Option Pmm
init mem_upper_kb kernel_start kernel_end has_mmap tags p = do
  let cleared = record p { bitmap = all_used; highest_frame_index = 0 }
  q ← if has_mmap then walk_tags tags cleared else fallback_map mem_upper_kb cleared
  let highest = if ltb max_frames q.highest_frame_index then max_frames else q.highest_frame_index
  r ← reserve_range 0 0x100000 (record q { highest_frame_index = highest; total_frames = highest })
  mark_used_region kernel_start (u32 (kernel_end + 2 ^ 32 - kernel_start)) r

-- The local `total_frames` shadows the static variable, which keeps its value.
pub init_basic : (mem_upper_kb kernel_start kernel_end : ℕ) → Pmm → Option Pmm
init_basic mem_upper_kb kernel_start kernel_end p = do
  let total_mem_kb = u32 (1024 + mem_upper_kb)
  let total = u32 (total_mem_kb * 1024) / frame_size
  bits ← clear_frames (if ltb max_frames total then max_frames else total) 0 all_used
  r ← mark_used_region 0 0x100000 (record p { bitmap = bits })
  mark_used_region kernel_start (u32 (kernel_end + 2 ^ 32 - kernel_start)) r

pub init_default : ℕ → Pmm → Option Pmm
init_default mem_upper_kb p =
    init_basic (if mem_upper_kb == 0 then 63 * 1024 else mem_upper_kb) 0 0 p

-- The loop of `pmm_alloc_frame` at frame `f`, with `left` rounds to go.
pub alloc_from : (left f : ℕ) → Pmm → Option (ℕ × Pmm)
alloc_from zero f p = some (0, p)
alloc_from (suc left) f p = do
  used ← test_frame p.bitmap f
  let rest = alloc_from left (f + 1) p
  if used then rest else do
    bits ← set_frame p.bitmap f
    some (f * frame_size, record p { bitmap = bits; used_frames = u32 (p.used_frames + 1) })

pub alloc_frame : Pmm → Option (ℕ × Pmm)
unfolding alloc_from
alloc_frame p = alloc_from p.total_frames 0 p

pub free_frame : ℕ → Pmm → Option Pmm
free_frame frame_addr p =
    let f = frame_addr / frame_size in
    if ltb f p.total_frames
    then (do
      used ← test_frame p.bitmap f
      if used
          then (do
            bits ← clear_frame p.bitmap f
            some (record p { bitmap = bits; used_frames = u32 (p.used_frames + 2 ^ 32 - 1) }))
          else some p)
    else some p
