-- ===== src/Heap/Alloc.antt =====
-- `kmalloc` of kernel/kheap.c, where a block of the list fits.
use mathlib.Core.Bool.{false≢true}
use reta_os.Prelude.{
  ℕ, ◌+◌, ◌-◌, ◌^◌, ◌≤◌, ◌<◌, ◌≡◌, refl, sym, ◌∙◌, ◌⊎◌, inl, inr, true, false, Option, none, some,
  List, [], ◌∷◌, ◌++◌, arith, Bool-cases,
}
use reta_os.Heap.{Block, Heap, header, fits, split, first_fit, request, kmalloc}
use reta_os.Heap.Tiles.{Tiles, Has, IsHeap, Tiles-le, front, split-cases}

-- `c` lies in a block that was free, starts where that starts, and has room for `size` bytes.
pub record Carved (size : ℕ) (old : List Block) (c : Block) : Type 0 where
  pub from : Block
  pub was_there : Has from old
  pub was_free : from.used ≡ false
  pub same_start : c.addr ≡ from.addr
  pub inside : c.size ≤ from.size
  pub room : size ≤ c.size
  pub taken : c.used ≡ true

-- The list `new` after `size` bytes were handed out at the payload address `p`.
pub record Served (size lo hi : ℕ) (old : List Block) (p : ℕ) (new : List Block) : Type 0 where
  pub tiles : Tiles lo new hi
  pub block : Block
  pub there : Has block new
  pub payload : p ≡ block.addr + header
  pub carved : Carved size old block
  pub kept : (b : Block) → b.used ≡ true → Has b old → Has b new

abbrev pub NoneFits : ℕ → List Block → Type 0
NoneFits size bs = (b : Block) → Has b bs → fits size b ≡ false

abbrev pub Found : (size lo hi : ℕ) → List Block → Option (ℕ × List Block) → Type 0
Found size lo hi bs out =
    ((out ≡ none) × NoneFits size bs)
    ⊎ ((p : ℕ) × (new : List Block) × (out ≡ some (p, new)) × Served size lo hi bs p new)

module _ (size hi : ℕ) (small : hi < 2 ^ 32) where
  take_head :
      (lo : ℕ) (b : Block) (bs : List Block)
      → fits size b ≡ true
      → 16 ≤ lo
      → Tiles lo (b ∷ bs) hi
      → Served size lo hi (b ∷ bs) (b.addr + header) (split size b ++ bs)
  take_head lo b bs f low t =
      let below : lo + header + b.size ≤ hi = Tiles-le bs (lo + header + b.size) hi t.1 in
      elim (split-cases size b (ground arith)) [
        | inl (e, over) ↦ rw e (
            let joined : lo + header + size + header + (b.size - size - header)
                ≡ lo + header + b.size =
              omega arith in
            record {
              tiles = (t.0, (omega arith, rw joined t.1));
              block = front size b;
              there = inl refl;
              payload = refl;
              carved = record {
                from = b;
                was_there = inl refl;
                was_free = ground arith;
                same_start = refl;
                inside = omega arith;
                room = omega arith;
                taken = refl;
              };
              kept = λ c u h. elim h [ inl same ↦ ground arith | inr behind ↦ inr (inr behind) ];
            })
        | inr e ↦ rw e (record {
          tiles = t;
          block = record b { used = true };
          there = inl refl;
          payload = refl;
          carved = record {
            from = b;
            was_there = inl refl;
            was_free = ground arith;
            same_start = refl;
            inside = omega arith;
            room = ground arith;
            taken = refl;
          };
          kept = λ c u h. elim h [ inl same ↦ ground arith | inr behind ↦ inr behind ];
        })
      ]

  keep_head :
      (lo : ℕ) (b : Block) (bs : List Block) (p : ℕ) (new : List Block)
      → b.addr ≡ lo
      → Served size (lo + header + b.size) hi bs p new
      → Served size lo hi (b ∷ bs) p (b ∷ new)
  keep_head lo b bs p new e s = record {
    tiles = (e, s.tiles);
    block = s.block;
    there = inr s.there;
    payload = s.payload;
    carved = record {
      from = s.carved.from;
      was_there = inr s.carved.was_there;
      was_free = s.carved.was_free;
      same_start = s.carved.same_start;
      inside = s.carved.inside;
      room = s.carved.room;
      taken = s.carved.taken;
    };
    kept = λ c u h. elim h [ inl same ↦ inl same | inr behind ↦ inr (s.kept c u behind) ];
  }

  pub first_fit-Found :
      (lo : ℕ) (bs : List Block)
      → 16 ≤ lo
      → Tiles lo bs hi
      → Found size lo hi bs (first_fit size bs)
  unfolding first_fit
  first_fit-Found lo [] low t = inl (refl, λ b h. absurd h)
  first_fit-Found lo (b ∷ bs) low t = elim (Bool-cases (fits size b)) [
    | inl f ↦ inr (b.addr + header, split size b ++ bs, rw f, take_head lo b bs f low t)
    | inr out ↦ rw out (elim (first_fit-Found (lo + header + b.size) bs (omega arith) t.1) [
      | inl (e, all) ↦
          inl (rw e, λ c h. elim h [ inl same ↦ rw same out | inr behind ↦ all c behind ])
      | inr (p, new, e, s) ↦ inr (p, b ∷ new, rw e, keep_head lo b bs p new t.0 s)
    ])
  ]

-- In a heap that has not been expanded and that has a free block large enough for the request,
-- `kmalloc` returns the payload of a block that lies in a formerly free one, has the room and is
-- now in use. The blocks still fill the heap without gaps, and every block that was in use stays
-- as it was.
pub kmalloc-serves :
    (size : ℕ) {h : Heap} (b : Block)
    → IsHeap h
    → Has b h.blocks
    → fits (request size) b ≡ true
    → (p : ℕ) × (new : List Block) × (kmalloc size h ≡ (p, record h { blocks = new }))
      × Served (request size) h.kheap_start h.kheap_end h.blocks p new
unfolding kmalloc
kmalloc-serves size {h} b v there room =
    elim (first_fit-Found (request size) h.kheap_end (omega (arith, v.end)) h.kheap_start h.blocks
      (omega (arith, v.start)) v.tiles) [
        | inl (e, all) ↦ absurd (false≢true (sym (all b there) ∙ room))
        | inr (p, new, e, s) ↦ (p, new, rw (e, kmalloc), s)
      ]
