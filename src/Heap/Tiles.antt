-- ===== src/Heap/Tiles.antt =====
-- The layout that the block list of kernel/kheap.c keeps: each block ends where the next begins.
use reta_os.Prelude.{
  ℕ, ◌+◌, ◌-◌, ◌%◌, ◌^◌, ◌≤◌, ◌<◌, ◌≡◌, ◌⊎◌, inl, inr, true, false, not, ◌&&◌, List, [], ◌∷◌, ◌++◌,
  arith, ltb, Bool-cases,
}
use reta_os.Heap.{Block, Heap, header, split}

-- The blocks fill the addresses from `lo` to `hi`, headers included.
abbrev pub Tiles : ℕ → List Block → ℕ → Type 0
Tiles lo [] hi = lo ≡ hi
Tiles lo (b ∷ bs) hi = (b.addr ≡ lo) × Tiles (lo + header + b.size) bs hi

-- `b` is one of the blocks.
abbrev pub Has : Block → List Block → Type 0
Has b [] = ⊥
Has b (c ∷ cs) = (b ≡ c) ⊎ Has b cs

-- No two blocks next to one another are both free.
abbrev pub IsMerged : List Block → Type 0
IsMerged [] = Unit
IsMerged (b ∷ []) = Unit
IsMerged (b ∷ c ∷ cs) = ((not b.used && not c.used) ≡ false) × IsMerged (c ∷ cs)

pub Tiles-le : (bs : List Block) (lo hi : ℕ) → Tiles lo bs hi → lo ≤ hi
Tiles-le [] lo hi t = omega arith
Tiles-le (b ∷ bs) lo hi t = omega (arith, Tiles-le bs (lo + header + b.size) hi t.1)

pub Tiles-append :
    (front bs : List Block) (lo mid hi : ℕ)
    → Tiles lo front mid
    → Tiles mid bs hi
    → Tiles lo (front ++ bs) hi
Tiles-append [] bs lo mid hi s t = let e : lo ≡ mid = s in rw e t
Tiles-append (a ∷ front) bs lo mid hi s t =
    (s.0, Tiles-append front bs (lo + header + a.size) mid hi s.1 t)

pub Has-append_left : (b : Block) (front bs : List Block) → Has b front → Has b (front ++ bs)
Has-append_left b [] bs h = absurd h
Has-append_left b (a ∷ front) bs (inl e) = inl e
Has-append_left b (a ∷ front) bs (inr h) = inr (Has-append_left b front bs h)

pub Has-append_right : (b : Block) (front bs : List Block) → Has b bs → Has b (front ++ bs)
Has-append_right b [] bs h = h
Has-append_right b (a ∷ front) bs h = inr (Has-append_right b front bs h)

-- The heap that `kheap_init` sets up, front `kmalloc` and `kfree` keep it while it is not expanded.
pub record IsHeap (h : Heap) : Type 0 where
  pub start : h.kheap_start ≡ 0xC000_0000
  pub end : h.kheap_end ≡ 0xC010_0000
  pub max : h.kheap_max ≡ 0xC00F_FFFF
  pub tiles : Tiles h.kheap_start h.blocks h.kheap_end

abbrev pub front : ℕ → Block → Block
front size b = record { addr = b.addr; size = size; used = true }

abbrev pub remainder : ℕ → Block → Block
remainder size b = record {
  addr = b.addr + header + size;
  size = b.size - size - header;
  used = false;
}

-- What `split` makes of a block that fits: two blocks where 16 bytes are left over, else one.
pub split-cases :
    (size : ℕ) (b : Block)
    → size + header + 4 < 2 ^ 32
    → ((split size b ≡ front size b ∷ remainder size b ∷ []) × (size + header + 4 < b.size))
      ⊎ (split size b ≡ record b { used = true } ∷ [])
unfolding split
split-cases size b small =
    let whole : (size + header + 4) % 2 ^ 32 ≡ size + header + 4 = omega arith in
    elim (Bool-cases (ltb (size + header + 4) b.size)) [
      | inl room ↦ inl (rw (whole, room), ground arith)
      | inr tight ↦ inr (rw (whole, tight))
    ]

-- Every block lies within the filled addresses.
pub Has_bounds :
    (b : Block) (bs : List Block) (lo hi : ℕ)
    → Tiles lo bs hi
    → Has b bs
    → (lo ≤ b.addr) × (b.addr + header + b.size ≤ hi)
Has_bounds b [] lo hi t h = absurd h
Has_bounds b (c ∷ cs) lo hi t (inl e) = ground (arith, Tiles-le cs (lo + header + c.size) hi)
Has_bounds b (c ∷ cs) lo hi t (inr h) =
    omega (arith, Has_bounds b cs (lo + header + c.size) hi t.1 h)
