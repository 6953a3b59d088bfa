-- ===== src/Heap/Tests.antt =====
-- Runs of the kernel heap of kernel/kheap.c, and its theorems at concrete heaps.
use reta_os.Prelude.{ℕ, ◌<◌, ◌≡◌, refl, inl, true, false, some, List, [], ◌∷◌, arith}
use reta_os.Heap.{
  Block, Heap, init, kmalloc, kfree, krealloc, first_fit, split, release, merge, coalesce,
  block_size,
}
use reta_os.Heap.Tiles.{IsHeap}
use reta_os.Heap.Alloc.{Served, kmalloc-serves}
use reta_os.Heap.Limits.{kmalloc-wraps}
use reta_os.Heap.Free.{Freed, kfree-frees}
use reta_os.Heap.RoundTrip.{kfree-kmalloc}

abbrev whole : Block
whole = record { addr = 0xC000_0000; size = 0xFFFF4; used = false }

abbrev taken : Block
taken = record { addr = 0xC000_0000; size = 0xFFFF4; used = true }

abbrev full : Heap
full = record init { blocks = taken ∷ [] }

abbrev hundred : Heap
hundred = record init {
  blocks =
      record { addr = 0xC000_0000; size = 100; used = true }
      ∷ record { addr = 0xC000_0070; size = 0xFFF84; used = false }
      ∷ [];
}

init-IsHeap : IsHeap init
init-IsHeap = record { start = refl; end = refl; max = refl; tiles = (refl, refl) }

full-IsHeap : IsHeap full
full-IsHeap = record { start = refl; end = refl; max = refl; tiles = (refl, refl) }

kmalloc_run : kmalloc 100 init ≡ (0xC000_000C, hundred)
unfolding kmalloc first_fit split
kmalloc_run = refl

kfree_run : kfree 0xC000_000C hundred ≡ some init
unfolding kfree release merge coalesce
kfree_run = refl

krealloc_run : krealloc 0xC000_000C 60 hundred ≡ some (0xC000_000C, [], hundred)
unfolding krealloc block_size
krealloc_run = refl

kmalloc-serves_example :
    (p : ℕ) × (new : List Block) × (kmalloc 100 init ≡ (p, record init { blocks = new }))
    × Served 100 0xC000_0000 0xC010_0000 (whole ∷ []) p new
kmalloc-serves_example = kmalloc-serves 100 whole init-IsHeap (inl refl) refl

kmalloc-wraps_example :
    (h' : Heap) × (kmalloc 0x4000_0000 init ≡ (0xC010_000C, h')) × (h'.kheap_end < 0xC010_0000)
kmalloc-wraps_example = kmalloc-wraps 0x4000_0000 init-IsHeap (omega arith) (omega arith)

kfree-frees_example :
    (new : List Block) × (kfree 0xC000_000C full ≡ some (record full { blocks = new }))
    × Freed taken 0xC000_0000 0xC010_0000 (taken ∷ []) new
kfree-frees_example = kfree-frees taken full-IsHeap (inl refl) (omega arith)

kfree-kmalloc_example :
    (p : ℕ) × (h' : Heap) × (kmalloc 100 init ≡ (p, h')) × (kfree p h' ≡ some init)
kfree-kmalloc_example = kfree-kmalloc 100 whole init-IsHeap tt (inl refl) refl
