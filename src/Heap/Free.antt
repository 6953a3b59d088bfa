-- ===== src/Heap/Free.antt =====
-- `kfree` of kernel/kheap.c: what the release and the merge loop do to the block list.
use reta_os.Prelude.{
  ℕ, ◌+◌, ◌-◌, ◌≤◌, ◌<◌, ◌≡◌, refl, ◌≢◌, ◌⊎◌, inl, inr, Bool, true, false, not, ◌&&◌, ◌||◌, some,
  List, [], ◌∷◌, arith, ltb, leb, ◌==◌, Bool-cases,
}
use reta_os.Heap.{Block, Heap, header, release, merge, coalesce, kfree}
use reta_os.Heap.Tiles.{Tiles, Has, IsHeap, IsMerged, Has_bounds}

-- `g` is a free block that covers the payload of `f`.
pub record Covered (f g : Block) : Type 0 where
  pub free : g.used ≡ false
  pub low : g.addr ≤ f.addr
  pub high : f.addr + f.size ≤ g.addr + g.size

abbrev pub joinable : Block → Block → Bool
joinable c b = not c.used && not b.used

abbrev pub joined : Block → Block → Block
joined c b = record c { size = c.size + (b.size + header) }

pub merge-joined :
    (c b : Block) (bs : List Block) → joinable c b ≡ true → merge c (b ∷ bs) ≡ merge (joined c b) bs
unfolding merge
merge-joined c b bs e = rw e

pub merge-apart :
    (c b : Block) (bs : List Block) → joinable c b ≡ false → merge c (b ∷ bs) ≡ c ∷ merge b bs
unfolding merge
merge-apart c b bs e = rw e

pub merge-nil : (c : Block) → merge c [] ≡ c ∷ []
unfolding merge
merge-nil c = refl

-- Merging keeps the layout.
merge-Tiles :
    (c : Block) (bs : List Block) (lo hi : ℕ) → Tiles lo (c ∷ bs) hi → Tiles lo (merge c bs) hi
merge-Tiles c [] lo hi t = rw merge-nil t
merge-Tiles c (b ∷ bs) lo hi t = elim (Bool-cases (joinable c b)) [
  | inl e ↦
      let same : lo + header + (c.size + (b.size + header))
          ≡ lo + header + c.size + header + b.size =
        omega arith in
      rw (merge-joined c b bs e) (merge-Tiles (joined c b) bs lo hi (t.0, rw same t.1.1))
  | inr e ↦ rw (merge-apart c b bs e) (t.0, merge-Tiles b bs (lo + header + c.size) hi t.1)
]

-- A block that stays apart from `b` stays apart from what `b` is merged into.
cons_merge-IsMerged :
    (c b : Block) (bs : List Block) → joinable c b ≡ false → IsMerged (c ∷ merge b bs)
cons_merge-IsMerged c b [] h = rw merge-nil (h, tt)
cons_merge-IsMerged c b (d ∷ bs) h = elim (Bool-cases (joinable b d)) [
  | inl e ↦ rw (merge-joined b d bs e) (cons_merge-IsMerged c (joined b d) bs h)
  | inr e ↦ rw (merge-apart b d bs e) (h, cons_merge-IsMerged b d bs e)
]

merge-IsMerged : (c : Block) (bs : List Block) → IsMerged (merge c bs)
merge-IsMerged c [] = rw merge-nil tt
merge-IsMerged c (b ∷ bs) = elim (Bool-cases (joinable c b)) [
  | inl e ↦ rw (merge-joined c b bs e) (merge-IsMerged (joined c b) bs)
  | inr e ↦ rw (merge-apart c b bs e) (cons_merge-IsMerged c b bs e)
]

-- Blocks in use are untouched by merging.
merge-kept : (d c : Block) (bs : List Block) → d.used ≡ true → Has d (c ∷ bs) → Has d (merge c bs)
merge-kept d c [] u h = rw merge-nil h
merge-kept d c (b ∷ bs) u h = elim (Bool-cases (joinable c b)) [
  | inl e ↦ rw (merge-joined c b bs e) (
      merge-kept d (joined c b) bs u (elim h [
        | inl same ↦ absurd (ground arith)
        | inr (inl same) ↦ absurd (ground arith)
        | inr (inr behind) ↦ inr behind
      ]))
  | inr e ↦
      rw (merge-apart c b bs e)
        (elim h [ inl same ↦ inl same | inr behind ↦ inr (merge-kept d b bs u behind) ])
]

Covered-trans : {f g k : Block} → Covered f g → Covered g k → Covered f k
Covered-trans a b = record { free = b.free; low = omega arith; high = omega arith }

Covered_self : (f c : Block) → f.used ≡ false → f ≡ c → Covered f c
Covered_self f c free e = record { free = ground arith; low = ground arith; high = ground arith }

Covered-joined :
    (f c b : Block) (bs : List Block) (lo hi : ℕ)
    → Tiles lo (c ∷ b ∷ bs) hi
    → joinable c b ≡ true
    → (f ≡ c) ⊎ (f ≡ b)
    → Covered f (joined c b)
Covered-joined f c b bs lo hi t e h = record {
  free = ground arith;
  low = ground arith;
  high = ground arith;
}

abbrev CoveredIn : Block → List Block → Type 0
CoveredIn f bs = (g : Block) × Has g bs × Covered f g

CoveredIn-trans : (f g : Block) (bs : List Block) → Covered f g → CoveredIn g bs → CoveredIn f bs
CoveredIn-trans f g bs a (k, there, b) = (k, there, Covered-trans a b)

CoveredIn-cons : (f c : Block) (bs : List Block) → CoveredIn f bs → CoveredIn f (c ∷ bs)
CoveredIn-cons f c bs (k, there, b) = (k, inr there, b)

-- A free block is covered by a free block after merging.
merge-Covered :
    (f c : Block) (bs : List Block) (lo hi : ℕ)
    → Tiles lo (c ∷ bs) hi
    → f.used ≡ false
    → Has f (c ∷ bs)
    → CoveredIn f (merge c bs)
merge-Covered f c [] lo hi t free (inl same) =
    rw merge-nil (c, inl refl, Covered_self f c free same)
merge-Covered f c [] lo hi t free (inr none_left) = absurd none_left
merge-Covered f c (b ∷ bs) lo hi t free h = elim (Bool-cases (joinable c b)) [
  | inl e ↦
      let same : lo + header + (c.size + (b.size + header))
          ≡ lo + header + c.size + header + b.size =
        omega arith in
      let t' : Tiles lo (joined c b ∷ bs) hi = (t.0, rw same t.1.1) in
      let whole : CoveredIn (joined c b) (merge (joined c b) bs) =
        merge-Covered (joined c b) (joined c b) bs lo hi t' (ground arith) (inl refl) in
      rw (merge-joined c b bs e) (elim h [
        | inl is ↦
            CoveredIn-trans f (joined c b) _ (Covered-joined f c b bs lo hi t e (inl is)) whole
        | inr (inl is) ↦
            CoveredIn-trans f (joined c b) _ (Covered-joined f c b bs lo hi t e (inr is)) whole
        | inr (inr behind) ↦ merge-Covered f (joined c b) bs lo hi t' free (inr behind)
      ])
  | inr e ↦ rw (merge-apart c b bs e) (elim h [
    | inl is ↦ (c, inl refl, Covered_self f c free is)
    | inr behind ↦
        CoveredIn-cons f c (merge b bs)
          (merge-Covered f b bs (lo + header + c.size) hi t.1 free behind)
  ])
]

-- What `release` does at the address of block `b`.
record Released (b : Block) (lo hi : ℕ) (old new : List Block) : Type 0 where
  tiles : Tiles lo new hi
  freed : Has (record b { used = false }) new
  kept : (c : Block) → c.addr ≢ b.addr → Has c old → Has c new

release_lem :
    (b : Block) (bs : List Block) (lo hi : ℕ)
    → Tiles lo bs hi
    → Has b bs
    → (new : List Block) × (release b.addr bs ≡ some new) × Released b lo hi bs new
unfolding release
release_lem b [] lo hi t h = absurd h
release_lem b (c ∷ cs) lo hi t (inl e) =
    let here : (c.addr == b.addr) ≡ true = ground arith in
    rw here (
      record c { used = false } ∷ cs,
      refl,
      record {
        tiles = t;
        freed = inl (ground arith);
        kept = λ d ne h. elim h [ inl same ↦ absurd (ne (ground arith)) | inr behind ↦ inr behind ];
      },
    )
release_lem b (c ∷ cs) lo hi t (inr h) =
    let (low, _) = Has_bounds b cs (lo + header + c.size) hi t.1 h in
    let further : (c.addr == b.addr) ≡ false = ground (arith, t.0) in
    let (new, e, r) = release_lem b cs (lo + header + c.size) hi t.1 h in
    rw further (
      c ∷ new,
      rw e,
      record {
        tiles = (t.0, r.tiles);
        freed = inr r.freed;
        kept = λ d ne k. elim k [ inl same ↦ inl same | inr behind ↦ inr (r.kept d ne behind) ];
      },
    )

-- The blocks after `kfree` of block `b`.
pub record Freed (b : Block) (lo hi : ℕ) (old new : List Block) : Type 0 where
  pub tiles : Tiles lo new hi
  pub merged : IsMerged new
  pub available : (g : Block) × Has g new × Covered b g
  pub kept : (c : Block) → c.used ≡ true → c.addr ≢ b.addr → Has c old → Has c new

coalesce-Freed :
    (b : Block) (lo hi : ℕ) (old bs : List Block)
    → Released b lo hi old bs
    → Freed b lo hi old (coalesce bs)
unfolding coalesce
coalesce-Freed b lo hi old [] r = absurd r.freed
coalesce-Freed b lo hi old (c ∷ cs) r = record {
  tiles = merge-Tiles c cs lo hi r.tiles;
  merged = merge-IsMerged c cs;
  available =
      (let (g, there, cover) =
          merge-Covered (record b { used = false }) c cs lo hi r.tiles refl r.freed in
        (g, there, record { free = cover.free; low = cover.low; high = cover.high }));
  kept = λ d u ne h. merge-kept d c cs u (r.kept d ne h);
}

-- In a heap that has not been expanded, `kfree` of the payload of a block that is not empty keeps
-- the layout, leaves no two free blocks next to one another, makes the whole payload part of a
-- free block, and leaves every other block in use as it was.
pub kfree-frees :
    {h : Heap} (b : Block)
    → IsHeap h
    → Has b h.blocks
    → 0 < b.size
    → (new : List Block) × (kfree (b.addr + header) h ≡ some (record h { blocks = new }))
      × Freed b h.kheap_start h.kheap_end h.blocks new
unfolding kfree
kfree-frees {h} b v there some_bytes =
    let (low, high) = Has_bounds b h.blocks h.kheap_start h.kheap_end v.tiles there in
    let (bs, e, r) = release_lem b h.blocks h.kheap_start h.kheap_end v.tiles there in
    let back : b.addr + header - header ≡ b.addr = omega arith in
    let inside : (b.addr + header == 0
          || ltb (b.addr + header) h.kheap_start
          || leb h.kheap_end (b.addr + header))
        ≡ false =
      ground (arith, v.start) in
    (coalesce bs, rw (inside, back, e), coalesce-Freed b h.kheap_start h.kheap_end h.blocks bs r)
