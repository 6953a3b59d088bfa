-- ===== src/Heap/Limits.antt =====
-- `kmalloc` of kernel/kheap.c where no block fits: the limit of the heap, and how it is missed.
use mathlib.Core.Path.{subst}
use mathlib.Core.Bool.{false≢true}
use reta_os.Prelude.{
  ℕ, ◌+◌, ◌-◌, ◌*◌, ◌/◌, ◌%◌, ◌^◌, ◌≤◌, ◌<◌, ◌≡◌, refl, sym, ◌∙◌, inl, inr, true, false, none, List,
  [], ◌∷◌, ◌++◌, arith,
}
use reta_os.Prelude.Bits.{bit_and-shifted, bit_and_ones}
use reta_os.Heap.{
  Block, Heap, header, kheap_align, align_up, fits, first_fit, request, expand, kmalloc,
}
use reta_os.Heap.Tiles.{Tiles, IsHeap, Tiles-le}
use reta_os.Heap.Alloc.{NoneFits, first_fit-Found}

-- Rounding up to a page, where the sum does not wrap.
pub align_up_page : (n : ℕ) → n + 4095 < 2 ^ 32 → align_up n kheap_align ≡ (n + 4095) / 4096 * 4096
unfolding align_up
align_up_page n h =
    let whole : (n + 0x1000 - 1) % 2 ^ 32 ≡ n + 4095 = omega arith in
    let mask : 2 ^ 32 - 0x1000 ≡ (2 ^ 20 - 1) * 2 ^ 12 = refl in
    rw
      (
        whole,
        mask,
        bit_and-shifted 12 (2 ^ 20 - 1) (n + 4095),
        bit_and_ones 20 ((n + 4095) / 2 ^ 12),
      )
      (omega arith)

none_fits : (size lo hi : ℕ) (bs : List Block) → Tiles lo bs hi → hi ≤ lo + size → NoneFits size bs
none_fits size lo hi [] t far b h = absurd h
none_fits size lo hi (c ∷ cs) t far b (inl e) =
    let below : lo + header + c.size ≤ hi = Tiles-le cs (lo + header + c.size) hi t.1 in
    subst (λ d. fits size d ≡ false) (sym e) (ground arith)
none_fits size lo hi (c ∷ cs) t far b (inr h) =
    none_fits size (lo + header + c.size) hi cs t.1 (omega arith) b h

first_fit-none :
    (size : ℕ) {h : Heap} → IsHeap h → NoneFits size h.blocks → first_fit size h.blocks ≡ none
first_fit-none size {h} v all =
    elim (first_fit-Found size h.kheap_end (omega (arith, v.end)) h.kheap_start h.blocks
      (omega (arith, v.start)) v.tiles) [
        | inl (e, _) ↦ e
        | inr (p, new, e, s) ↦
            let room : fits size s.carved.from ≡ true =
              ground (arith, s.carved.was_free, s.carved.inside, s.carved.room) in
            absurd (false≢true (sym (all s.carved.from s.carved.was_there) ∙ room))
      ]

-- In a heap that has not been expanded, if no free block is large enough for a request below
-- 0x3FEF_0000 bytes, `kmalloc` returns NULL and changes nothing.
kmalloc-null :
    (size : ℕ) {h : Heap}
    → IsHeap h
    → size < 0x3FEF_0000
    → NoneFits (request size) h.blocks
    → kmalloc size h ≡ (0, h)
unfolding kmalloc expand
kmalloc-null size {h} v small all =
    rw (first_fit-none (request size) v all, kmalloc)
      (ground (arith, align_up_page (request size + 12), v.end, v.max))

-- In a heap that has not been expanded, for a request from 0x3FEF_FFF4 bytes on and below
-- 0xFFFF_EFF0 the sum `kheap_end + new_size` wraps and passes the limit: `kmalloc` returns a
-- non-null pointer past the end of the heap and moves `kheap_end` down.
pub kmalloc-wraps :
    (size : ℕ) {h : Heap}
    → IsHeap h
    → 0x3FEF_FFF4 ≤ size
    → size < 0xFFFF_EFF0
    → (h' : Heap) × (kmalloc size h ≡ (0xC010_000C, h')) × (h'.kheap_end < h.kheap_end)
unfolding kmalloc expand
kmalloc-wraps size {h} v large small =
    let nothing : first_fit (request size) h.blocks ≡ none = first_fit-none (request size) v (
      none_fits (request size) h.kheap_start h.kheap_end h.blocks v.tiles
        (ground (arith, v.start, v.end))) in
    (
      record h {
        blocks = h.blocks ++ record { addr = h.kheap_end; size = size; used = true } ∷ [];
        kheap_end = (h.kheap_end + align_up (size + 12) kheap_align) % 2 ^ 32;
      },
      rw (nothing, kmalloc) (ground (arith, align_up_page (size + 12), v.start, v.end, v.max)),
      ground (arith, align_up_page (size + 12), v.end),
    )
