-- ===== src/Frames/Regions.antt =====
-- The loops of memory/pmm.c over ranges of frames: marking, freeing, and the initial map.
use native.Mathlib.Omega.{arith}
use reta_os.Prelude.{
  ℕ, zero, suc, ◌+◌, ◌-◌, ◌*◌, ◌/◌, ◌%◌, ◌^◌, ◌≤◌, ◌<◌, ◌≡◌, refl, ◌∙◌, inl, inr, Bool, not, ◌&&◌,
  ◌||◌, none, some, List, [], ◌∷◌, ltb, leb, ◌==◌, if◌then◌else◌, length, get_elem?, Bool-cases,
}
use reta_os.Frames.{
  Pmm, frame_size, max_frames, mark_frame, mark_frames, mark_used_region, clear_frames, MmapEntry,
  add_region, cap32,
}
use reta_os.Frames.Alloc.{IsValid, used}
use reta_os.Frames.Bitmap.{
  Covers, clear_frame, is_used, with_frame, without_frame, length-with_frame, length-without_frame,
  test_frame-is_used, set_frame-with_frame, clear_frame-without_frame, is_used-with_frame,
  is_used-without_frame,
}

-- Frame `g` is one of the `n` frames from `f` on.
abbrev pub in_range : (f n g : ℕ) → Bool
in_range f n g = leb f g && ltb g (f + n)

-- How many of the `n` frames from `f` on are free.
pub free_count : List ℕ → (n f : ℕ) → ℕ
free_count bits zero f = 0
free_count bits (suc n) f = (if is_used bits f then 0 else 1) + free_count bits n (f + 1)

free_count-with_frame :
    (bits : List ℕ) (f : ℕ)
    → Covers bits f
    → (n g : ℕ) → f < g
    → free_count (with_frame bits f) n g ≡ free_count bits n g
unfolding free_count
free_count-with_frame bits f c zero g h = refl
free_count-with_frame bits f c (suc n) g h =
    ground (arith, is_used-with_frame bits f c g, free_count-with_frame bits f c n (g + 1))

-- `q` is `p` with all of the `n` frames from `f` on marked, each newly marked one counted.
pub record MarksRange (p : Pmm) (f n : ℕ) (q : Pmm) : Type 0 where
  pub valid : IsValid q
  pub frames : (g : ℕ) → used q g ≡ (in_range f n g || used p g)
  pub counter : q.used_frames ≡ (p.used_frames + free_count p.bitmap n f) % 2 ^ 32
  pub same_total : q.total_frames ≡ p.total_frames

module _ {p : Pmm} (v : IsValid p) (small : p.used_frames < 2 ^ 32) where
  mark_frame_lem :
      (f : ℕ)
      → f < max_frames
      → (q : Pmm) × (mark_frame p f ≡ some q)
        × MarksRange p f 1 q
        × ((n g : ℕ) → f < g → free_count q.bitmap n g ≡ free_count p.bitmap n g)
  unfolding mark_frame free_count
  mark_frame_lem f h =
      let covered : Covers p.bitmap f = omega (arith, v.words) in
      elim (Bool-cases (used p f)) [
        | inl marked ↦ (
          p,
          rw (test_frame-is_used p.bitmap f covered, marked),
          record {
            valid = v;
            frames = λ g. ground arith;
            counter = ground arith;
            same_total = refl;
          },
          λ n g l. refl,
        )
        | inr free ↦ (
          record p { bitmap = with_frame p.bitmap f; used_frames = (p.used_frames + 1) % 2 ^ 32 },
          rw (test_frame-is_used p.bitmap f covered, free, set_frame-with_frame p.bitmap f covered),
          record {
            valid = ground (arith, length-with_frame p.bitmap f);
            frames = λ g. ground (arith, is_used-with_frame p.bitmap f covered g);
            counter = ground arith;
            same_total = refl;
          },
          free_count-with_frame p.bitmap f covered,
        )
      ]

MarksRange-zero : {p : Pmm} (f : ℕ) → IsValid p → p.used_frames < 2 ^ 32 → MarksRange p f 0 p
unfolding free_count
MarksRange-zero f v small = record {
  valid = v;
  frames = λ g. ground arith;
  counter = ground arith;
  same_total = refl;
}

mark_frames_lem :
    (n f : ℕ) {p : Pmm}
    → IsValid p
    → p.used_frames < 2 ^ 32
    → f + n ≤ max_frames
    → (q : Pmm) × (mark_frames n f p ≡ some q) × MarksRange p f n q
unfolding mark_frames free_count
mark_frames_lem zero f {p} v small h = (p, refl, MarksRange-zero f v small)
mark_frames_lem (suc n) f {p} v small h =
    let (q, e, one, rest) = mark_frame_lem v small f (omega arith) in
    let (r, e', all) =
      mark_frames_lem n (f + 1) {p = q} one.valid (omega (arith, one.counter)) (omega arith) in
    (
      r,
      rw e e',
      record {
        valid = all.valid;
        frames = λ g. ground (arith, all.frames g, one.frames g);
        counter = ground (arith, all.counter, one.counter, rest n (f + 1));
        same_total = all.same_total ∙ one.same_total;
      },
    )

-- The number of frames that a region of `size` bytes from `base` on touches.
abbrev pub touched : (base size : ℕ) → ℕ
touched base size =
    if size == 0 then 0 else (base + size + frame_size - 1) / frame_size - base / frame_size

-- In a valid allocator whose counter has not wrapped, marking a region inside the managed memory
-- never leaves the bitmap. It marks exactly the frames that the region touches, keeps the other
-- marks, and counts the newly marked frames.
pub mark_used_region_marks :
    (base size : ℕ) {p : Pmm}
    → IsValid p
    → p.used_frames < 2 ^ 32
    → base + size ≤ max_frames * frame_size
    → (q : Pmm) × (mark_used_region base size p ≡ some q)
      × MarksRange p (base / frame_size) (touched base size) q
unfolding mark_used_region
mark_used_region_marks base size {p} v small h = elim (Bool-cases (size == 0)) [
  | inl e ↦ rw e (p, refl, MarksRange-zero (base / frame_size) v small)
  | inr e ↦
      let whole : (base + size + frame_size - 1) % 2 ^ 32 ≡ base + size + frame_size - 1 =
        omega arith in
      rw (e, whole) (mark_frames_lem _ (base / frame_size) v small (ground arith))
]

pub clear_frames_lem :
    (n f : ℕ) (bits : List ℕ)
    → length bits ≡ 1024
    → f + n ≤ max_frames
    → (out : List ℕ) × (clear_frames n f bits ≡ some out)
      × (length out ≡ 1024)
      × ((g : ℕ) → is_used out g ≡ (not (in_range f n g) && is_used bits g))
unfolding clear_frames
clear_frames_lem zero f bits words h = (bits, refl, words, λ g. ground arith)
clear_frames_lem (suc n) f bits words h =
    let covered : Covers bits f = omega arith in
    let (out, e, long, marks) =
      clear_frames_lem n (f + 1) (without_frame bits f) (length-without_frame bits f ∙ words)
        (omega arith) in
    (
      out,
      rw (clear_frame-without_frame bits f covered) e,
      long,
      λ g. ground (arith, marks g, is_used-without_frame bits f covered g),
    )

get_elem?-none : (bits : List ℕ) (i : ℕ) → length bits ≤ i → get_elem? bits i ≡ none
get_elem?-none [] i h = refl
get_elem?-none (w ∷ bits) zero h = absurd (omega arith)
get_elem?-none (w ∷ bits) (suc i) h = get_elem?-none bits i (omega arith)

-- Clearing runs out of the bitmap as soon as the range passes its end.
clear_frames-fault :
    (n f : ℕ) (bits : List ℕ)
    → length bits ≡ 1024
    → 0 < n
    → max_frames < f + n
    → clear_frames n f bits ≡ none
unfolding clear_frames
clear_frames-fault zero f bits words some_round h = absurd (omega arith)
clear_frames-fault (suc n) f bits words some_round h = elim (Bool-cases (ltb f max_frames)) [
  | inl inside ↦
      let covered : Covers bits f = ground arith in
      rw (clear_frame-without_frame bits f covered) (
        clear_frames-fault n (f + 1) (without_frame bits f) (length-without_frame bits f ∙ words)
          (ground arith) (omega arith))
  | inr outside ↦
      let gone : clear_frame bits f ≡ none =
        unfold clear_frame in rw (get_elem?-none bits (f / 32) (ground arith)) in
      rw gone
]

-- In a valid allocator, an available region of the memory map that is at least a frame long, ends
-- below 4 GB and reaches at least a frame beyond the 128 MB that the bitmap describes makes
-- `pmm_init` write outside the bitmap.
pub add_region-leaves_bitmap :
    (e : MmapEntry) {p : Pmm}
    → IsValid p
    → e.type ≡ 1
    → e.addr + e.len < 2 ^ 32
    → frame_size ≤ e.len
    → max_frames * frame_size + frame_size ≤ e.addr + e.len
    → add_region e p ≡ none
unfolding add_region
add_region-leaves_bitmap e {p} v available small size beyond =
    let fits : (e.addr + e.len) % 2 ^ 64 ≡ e.addr + e.len = omega arith in
    let end_kept : cap32 (e.addr + e.len) ≡ e.addr + e.len = ground arith in
    let start_kept : cap32 e.addr ≡ e.addr = ground arith in
    rw (fits, end_kept, start_kept)
      (ground (
        arith,
        clear_frames-fault ((e.addr + e.len) / frame_size - e.addr / frame_size)
            (e.addr / frame_size) p.bitmap v.words,
      ))
