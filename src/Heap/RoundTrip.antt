-- ===== src/Heap/RoundTrip.antt =====
-- `kfree` after `kmalloc` in kernel/kheap.c.
use mathlib.Core.Path.{subst}
use mathlib.Core.Bool.{false≢true}
use reta_os.Prelude.{
  ℕ, ◌+◌, ◌-◌, ◌^◌, ◌≤◌, ◌<◌, ◌≡◌, refl, sym, ap, ◌∙◌, inl, inr, true, false, ◌||◌, none, some,
  List, [], ◌∷◌, ◌++◌, arith, ltb, leb, ◌==◌, Bool-cases,
}
use reta_os.Heap.{
  Block, Heap, header, fits, split, first_fit, request, kmalloc, release, merge, coalesce, kfree,
}
use reta_os.Heap.Tiles.{
  Tiles, Has, IsHeap, IsMerged, Tiles-le, Has_bounds, front, remainder, split-cases,
}
use reta_os.Heap.Alloc.{Served, first_fit-Found}
use reta_os.Heap.Free.{merge-joined, merge-apart, merge-nil, joinable, joined}

-- A merged list is a fixed point of the merge loop.
merge-fixed : (c : Block) (bs : List Block) → IsMerged (c ∷ bs) → merge c bs ≡ c ∷ bs
merge-fixed c [] m = merge-nil c
merge-fixed c (b ∷ bs) m = rw (merge-apart c b bs m.0, merge-fixed b bs m.1)

-- Merging leaves a first block, in use exactly if the first was before.
merge-head :
    (c : Block) (bs : List Block)
    → (d : Block) × (ds : List Block) × (merge c bs ≡ d ∷ ds) × (d.used ≡ c.used)
merge-head c [] = (c, [], merge-nil c, refl)
merge-head c (b ∷ bs) = elim (Bool-cases (joinable c b)) [
  | inl e ↦ let (d, ds, h, u) = merge-head (joined c b) bs in (d, ds, merge-joined c b bs e ∙ h, u)
  | inr e ↦ (c, merge b bs, merge-apart c b bs e, refl)
]

-- Merging from a block on whose tail merges to `bs`.
cons-coalesce :
    (c r : Block) (rs bs : List Block)
    → merge r rs ≡ bs
    → IsMerged (c ∷ bs)
    → merge c (r ∷ rs) ≡ c ∷ bs
cons-coalesce c r rs [] e m = let (d, ds, h, u) = merge-head r rs in absurd (cc)
cons-coalesce c r rs (b ∷ bs) e m =
    let (d, ds, h, u) = merge-head r rs in
    let first : d ≡ b = cc in
    let apart : joinable c r ≡ false = ground (arith, m.0) in
    merge-apart c r rs apart ∙ ap (λ l. c ∷ l) e

-- Releasing what `first_fit` handed out and merging gives the list back.
module _ (size hi : ℕ) (small : hi < 2 ^ 32) where
  undo_head :
      (lo : ℕ) (b : Block) (bs : List Block)
      → 16 ≤ lo
      → Tiles lo (b ∷ bs) hi
      → IsMerged (b ∷ bs)
      → fits size b ≡ true
      → (new : List Block) × (release b.addr (split size b ++ bs) ≡ some new)
        × (coalesce new ≡ b ∷ bs)
  unfolding release coalesce
  undo_head lo b bs low t m f =
      let below : lo + header + b.size ≤ hi = Tiles-le bs (lo + header + b.size) hi t.1 in
      let here : (b.addr == b.addr) ≡ true = ground arith in
      elim (split-cases size b (ground arith)) [
        | inl (e, over) ↦
            rw (e, here)
              (
                record (front size b) { used = false } ∷ remainder size b ∷ bs,
                refl,
                (let whole : joined (record (front size b) { used = false }) (remainder size b)
                        ≡ b =
                      ground arith in
                    merge-joined (record (front size b) { used = false }) (remainder size b) bs refl
                    ∙ ap (λ c. merge c bs) whole
                    ∙ merge-fixed b bs m),
              )
        | inr e ↦
            rw (e, here)
              (
                record b { used = false } ∷ bs,
                refl,
                (let same : record b { used = false } ≡ b = ground arith in
                    ap (λ c. merge c bs) same ∙ merge-fixed b bs m),
              )
      ]

  abbrev Undone : ℕ → List Block → List Block → Type 0
  Undone p new old =
      (back : List Block) × (release (p - header) new ≡ some back) × (coalesce back ≡ old)

  undo_behind :
      (lo : ℕ) (b : Block) (bs : List Block) (p : ℕ) (new : List Block)
      → Tiles lo (b ∷ bs) hi
      → IsMerged (b ∷ bs)
      → Served size (lo + header + b.size) hi bs p new
      → Undone p new bs
      → Undone p (b ∷ new) (b ∷ bs)
  unfolding release coalesce
  undo_behind lo b bs p new t m s ([], e, c) =
      absurd (subst (Has s.carved.from) (sym c) s.carved.was_there)
  undo_behind lo b bs p new t m s (r ∷ rs, e, c) =
      let (low, _) = Has_bounds s.block new (lo + header + b.size) hi s.tiles s.there in
      let further : (b.addr == p - header) ≡ false = ground (arith, s.payload, t.0) in
      (b ∷ r ∷ rs, rw (further, e), cons-coalesce b r rs bs c m)

  IsMerged-tail : (b : Block) (bs : List Block) → IsMerged (b ∷ bs) → IsMerged bs
  IsMerged-tail b [] m = tt
  IsMerged-tail b (c ∷ cs) m = m.1

  first_fit-undo :
      (lo : ℕ) (bs : List Block) (p : ℕ) (new : List Block)
      → 16 ≤ lo
      → Tiles lo bs hi
      → IsMerged bs
      → first_fit size bs ≡ some (p, new)
      → Undone p new bs
  unfolding first_fit
  first_fit-undo lo [] p new low t m e = absurd (cc)
  first_fit-undo lo (b ∷ bs) p new low t m e = elim (Bool-cases (fits size b)) [
    | inl f ↦
        let shown : first_fit size (b ∷ bs) ≡ some (b.addr + header, split size b ++ bs) = rw f in
        let at : p ≡ b.addr + header = cc in
        let is : split size b ++ bs ≡ new = cc in
        let back : b.addr + header - header ≡ b.addr = omega arith in
        rw (at, ← is, back) (undo_head lo b bs low t m f)
    | inr out ↦ elim (first_fit-Found size hi small (lo + header + b.size) bs (omega arith) t.1) [
      | inl (nothing, all) ↦
          let shown : first_fit size (b ∷ bs) ≡ none = rw (out, nothing) in absurd (cc)
      | inr (p', rest, found, s) ↦
          let shown : first_fit size (b ∷ bs) ≡ some (p', b ∷ rest) = rw (out, found) in
          let at : p ≡ p' = cc in
          let is : b ∷ rest ≡ new = cc in
          rw (at, ← is)
            (undo_behind lo b bs p' rest t m s (
              first_fit-undo (lo + header + b.size) bs p' rest (omega arith) t.1
                (IsMerged-tail b bs m) found))
    ]
  ]

-- In a heap that has not been expanded, that has no two free blocks next to one another and a
-- free block large enough for the request, freeing what `kmalloc` has just handed out gives back
-- the very same heap.
pub kfree-kmalloc :
    (size : ℕ) {h : Heap} (b : Block)
    → IsHeap h
    → IsMerged h.blocks
    → Has b h.blocks
    → fits (request size) b ≡ true
    → (p : ℕ) × (h' : Heap) × (kmalloc size h ≡ (p, h')) × (kfree p h' ≡ some h)
unfolding kmalloc kfree
kfree-kmalloc size {h} b v m there room =
    elim (first_fit-Found (request size) h.kheap_end (omega (arith, v.end)) h.kheap_start h.blocks
      (omega (arith, v.start)) v.tiles) [
        | inl (e, all) ↦ absurd (false≢true (sym (all b there) ∙ room))
        | inr (p, new, e, s) ↦
            let (back, e', c) =
              first_fit-undo (request size) h.kheap_end (omega (arith, v.end)) h.kheap_start
                h.blocks p new (omega (arith, v.start)) v.tiles m e in
            let (low, high) = Has_bounds s.block new h.kheap_start h.kheap_end s.tiles s.there in
            let inside : (p == 0 || ltb p h.kheap_start || leb h.kheap_end p) ≡ false =
              ground (arith, s.payload, s.carved.room, v.start) in
            (p, record h { blocks = new }, rw (e, kmalloc), rw (inside, e', c))
      ]
