-- ===== src/Frames/Alloc.antt =====
-- `pmm_alloc_frame` and `pmm_free_frame` against the set of used frames.
use reta_os.Prelude.{
  ℕ, zero, suc, ◌+◌, ◌-◌, ◌*◌, ◌/◌, ◌%◌, ◌^◌, ◌≤◌, ◌<◌, ◌≡◌, refl, sym, ◌∙◌, ◌⊎◌, inl, inr, Bool,
  true, false, Option, some, arith, ltb, ◌==◌, if◌then◌else◌, length, Bool-cases,
}
use mathlib.Core.Bool.{false≢true}
use mathlib.Core.Path.{subst}
use reta_os.Frames.{Pmm, frame_size, max_frames, alloc_from, alloc_frame, free_frame}
use reta_os.Frames.Bitmap.{
  Covers, is_used, with_frame, without_frame, length-with_frame, length-without_frame,
  test_frame-is_used, set_frame-with_frame, clear_frame-without_frame, is_used-with_frame,
  is_used-without_frame,
}

-- The bitmap has all its words, and `total_frames` frames have a bit.
pub record IsValid (p : Pmm) : Type 0 where
  pub words : length p.bitmap ≡ 1024
  pub total : p.total_frames ≤ max_frames

-- Whether the allocator has frame `f` marked as used.
abbrev pub used : Pmm → ℕ → Bool
used p f = is_used p.bitmap f

-- `q` is `p` with the mark of frame `f` changed to `b`, and `n` for the counter.
pub record Marks (p : Pmm) (f : ℕ) (b : Bool) (n : ℕ) (q : Pmm) : Type 0 where
  pub valid : IsValid q
  pub frames : (g : ℕ) → used q g ≡ (if g == f then b else used p g)
  pub counter : q.used_frames ≡ n % 2 ^ 32
  pub same_total : q.total_frames ≡ p.total_frames

abbrev pub AllUsed : Pmm → ℕ → ℕ → Type 0
AllUsed p lo hi = (g : ℕ) → lo ≤ g → g < hi → used p g ≡ true

-- The outcome of the search over the frames from `lo` up to `hi`.
abbrev pub Searched : Pmm → ℕ → ℕ → Option (ℕ × Pmm) → Type 0
Searched p lo hi out =
    ((f : ℕ) × (q : Pmm) × (out ≡ some (f * frame_size, q))
      × (f < hi)
      × (used p f ≡ false)
      × AllUsed p lo f
      × Marks p f true (p.used_frames + 1) q)
    ⊎ ((out ≡ some (0, p)) × AllUsed p lo hi)

module _ {p : Pmm} (v : IsValid p) where
  alloc_from-free :
      (left f : ℕ)
      → Covers p.bitmap f
      → used p f ≡ false
      → (q : Pmm) × (alloc_from (suc left) f p ≡ some (f * frame_size, q))
        × Marks p f true (p.used_frames + 1) q
  unfolding alloc_from
  alloc_from-free left f covered free = (
    record p { bitmap = with_frame p.bitmap f; used_frames = (p.used_frames + 1) % 2 ^ 32 },
    rw (test_frame-is_used p.bitmap f covered, free, set_frame-with_frame p.bitmap f covered),
    record {
      valid = ground (arith, length-with_frame p.bitmap f);
      frames = is_used-with_frame p.bitmap f covered;
      counter = refl;
      same_total = refl;
    },
  )

  alloc_from-used :
      (left f : ℕ)
      → Covers p.bitmap f
      → used p f ≡ true
      → alloc_from (suc left) f p ≡ alloc_from left (f + 1) p
  unfolding alloc_from
  alloc_from-used left f covered marked = rw (test_frame-is_used p.bitmap f covered, marked)

  extend : (lo hi : ℕ) → used p lo ≡ true → AllUsed p (lo + 1) hi → AllUsed p lo hi
  extend lo hi marked above g l h = elim (Bool-cases (g == lo)) [
    | inl e ↦ ground arith
    | inr n ↦ above g (ground arith) h
  ]

  skip :
      (f hi : ℕ) (out : Option (ℕ × Pmm))
      → used p f ≡ true
      → f + 1 ≤ hi
      → Searched p (f + 1) hi out
      → Searched p f hi out
  skip f hi out marked h (inl (g, q, e, below, free, first, marks)) =
      inl (g, q, e, below, free, extend f g marked first, marks)
  skip f hi out marked h (inr (e, all)) = inr (e, extend f hi marked all)

  alloc_from-Searched :
      (left f hi : ℕ) → f + left ≡ hi → hi ≤ max_frames → Searched p f hi (alloc_from left f p)
  alloc_from-Searched zero f hi e h = inr (unfold alloc_from in refl, λ g l u. absurd (omega arith))
  alloc_from-Searched (suc left) f hi e h =
      let covered : Covers p.bitmap f = omega (arith, v.words) in
      elim (Bool-cases (used p f)) [
        | inl marked ↦
            rw (alloc_from-used left f covered marked) (
              skip f hi _ marked (omega arith)
                (alloc_from-Searched left (f + 1) hi (omega arith) h))
        | inr free ↦ inl (
          f,
          (alloc_from-free left f covered free).0,
          (alloc_from-free left f covered free).1,
          omega arith,
          free,
          λ g l u. absurd (omega arith),
          (alloc_from-free left f covered free).2,
        )
      ]

  -- In a valid allocator `pmm_alloc_frame` never leaves the bitmap. Either it returns the address
  -- of the lowest free frame below `total_frames`, now marked and counted with all other marks
  -- kept, or all frames below `total_frames` are used and it returns 0 and changes nothing.
  pub alloc_frame-takes_lowest : Searched p 0 p.total_frames (alloc_frame p)
  unfolding alloc_frame
  alloc_frame-takes_lowest =
      alloc_from-Searched p.total_frames 0 p.total_frames (omega arith) v.total

  -- In a valid allocator `pmm_free_frame` never leaves the bitmap. For an address in a used frame
  -- below `total_frames` it clears the mark of that frame alone and counts down; otherwise it
  -- changes nothing.
  pub free_frame-clears :
      (addr : ℕ)
      → let f = addr / frame_size in
        ((f < p.total_frames)
          × (used p f ≡ true)
          × ((q : Pmm) × (free_frame addr p ≡ some q)
              × Marks p f false (p.used_frames + 2 ^ 32 - 1) q))
        ⊎ ((p.total_frames ≤ f) ⊎ (used p f ≡ false)) × (free_frame addr p ≡ some p)
  unfolding free_frame
  free_frame-clears addr = elim (Bool-cases (ltb (addr / frame_size) p.total_frames)) [
    | inr out ↦ inr (inl (ground arith), rw out)
    | inl inside ↦
        let f = addr / frame_size in
        let covered : Covers p.bitmap f = ground (arith, v.words, v.total) in
        elim (Bool-cases (used p f)) [
          | inr free ↦ inr (inr free, rw (inside, test_frame-is_used p.bitmap f covered, free))
          | inl marked ↦ inl (
            ground arith,
            marked,
            (
              record p {
                bitmap = without_frame p.bitmap f;
                used_frames = (p.used_frames + 2 ^ 32 - 1) % 2 ^ 32;
              },
              rw (
                inside,
                test_frame-is_used p.bitmap f covered,
                marked,
                clear_frame-without_frame p.bitmap f covered,
              ),
              record {
                valid = ground (arith, length-without_frame p.bitmap f);
                frames = is_used-without_frame p.bitmap f covered;
                counter = refl;
                same_total = refl;
              },
            ),
          )
        ]
  ]

abbrev pub Restored : Pmm → ℕ → Pmm → Type 0
Restored p addr q =
    (r : Pmm) × (free_frame addr q ≡ some r)
    × ((g : ℕ) → used r g ≡ used p g)
    × (r.used_frames ≡ p.used_frames)

undo :
    {p q : Pmm} (f : ℕ)
    → p.used_frames < 2 ^ 32
    → f < p.total_frames
    → used p f ≡ false
    → Marks p f true (p.used_frames + 1) q
    → Restored p (f * frame_size) q
undo {p} {q} f small h free marks = elim (free_frame-clears marks.valid (f * frame_size)) [
  | inl (below, marked, (r, e, back)) ↦ (
    r,
    e,
    λ g. ground (arith, back.frames g, marks.frames g),
    ground (arith, back.counter, marks.counter),
  )
  | inr (inl out, same) ↦ absurd (omega (arith, marks.same_total))
  | inr (inr unmarked, same) ↦
      absurd (false≢true (ground (arith, marks.frames (f * frame_size / frame_size))))
]

-- In a valid allocator whose counter has not wrapped and that has a free frame, freeing the frame
-- that an allocation returned succeeds and gives back the old marks and counter.
pub free_frame-alloc_frame :
    {p : Pmm} (addr : ℕ) (q : Pmm)
    → IsValid p
    → p.used_frames < 2 ^ 32
    → ((g : ℕ) × (g < p.total_frames) × (used p g ≡ false))
    → alloc_frame p ≡ some (addr, q)
    → (r : Pmm) × (free_frame addr q ≡ some r)
      × ((g : ℕ) → used r g ≡ used p g)
      × (r.used_frames ≡ p.used_frames)
free_frame-alloc_frame {p} addr q v small (g, below, free) e = elim (alloc_frame-takes_lowest v) [
  | inl (f, q', e', h, was_free, first, marks) ↦
      let same_addr : f * frame_size ≡ addr = cc in
      let same_state : q' ≡ q = cc in
      subst (λ s. Restored p addr s) same_state
        (subst (λ a. Restored p a q') same_addr (undo f small h was_free marks))
  | inr (e', all) ↦ absurd (false≢true (sym free ∙ all g (omega arith) below))
]
