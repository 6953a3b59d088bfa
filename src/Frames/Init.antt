-- ===== src/Frames/Init.antt =====
-- The memory map that `pmm_init_basic` of memory/pmm.c sets up.
use reta_os.Prelude.{
  ℕ, zero, suc, ◌+◌, ◌-◌, ◌*◌, ◌/◌, ◌%◌, ◌^◌, ◌≤◌, ◌<◌, ◌≡◌, refl, true, not, ◌||◌, some, arith,
  ltb, if◌then◌else◌, length, replicate, get_or, length-replicate,
}
use native.Mathlib.Nat.{pow-suc, one-le-pow}
use reta_os.Prelude.Bits.{bit_at}
use reta_os.Frames.{Pmm, frame_size, max_frames, all_used, init_basic}
use reta_os.Frames.Alloc.{IsValid, used}
use reta_os.Frames.Bitmap.{is_used}
use reta_os.Frames.Regions.{in_range, touched, clear_frames_lem, mark_used_region_marks}

get_or-replicate : (n i a : ℕ) → i < n → get_or (replicate n a) i 0 ≡ a
get_or-replicate zero i a h = absurd (omega arith)
get_or-replicate (suc n) zero a h = refl
get_or-replicate (suc n) (suc i) a h = get_or-replicate n i a (omega arith)

-- Every bit of a word of `n` ones is 1.
ones : (n k : ℕ) → k < n → bit_at (2 ^ n - 1) k ≡ 1
unfolding bit_at
ones zero k h = absurd (omega arith)
ones (suc n) zero h = omega (arith, pow-suc 2 n, one-le-pow n 2)
ones (suc n) (suc k) h =
    let half : (2 ^ suc n - 1) / 2 ≡ 2 ^ n - 1 = omega (arith, pow-suc 2 n, one-le-pow n 2) in
    rw half (ones n k (omega arith))

all_used-is_used : (g : ℕ) → g < max_frames → is_used all_used g ≡ true
unfolding is_used all_used
all_used-is_used g h =
    rw (get_or-replicate 1024 (g / 32) 0xFFFF_FFFF (omega arith), ones 32 (g % 32) (omega arith))

length-all_used : length all_used ≡ 1024
unfolding all_used
length-all_used = length-replicate {A = ℕ} 1024 0xFFFF_FFFF

-- The number of frames that `mem_upper_kb` KB above the first megabyte make, up to MAX_FRAMES.
abbrev pub memory_frames : ℕ → ℕ
memory_frames mem_upper_kb =
    let total = (1024 + mem_upper_kb) * 1024 / frame_size in
    if ltb max_frames total then max_frames else total

-- Where the old `total_frames` is within the bitmap and the counter has not wrapped, for a memory
-- size below 4 GB and a kernel image within the first 128 MB, `pmm_init_basic` never leaves the
-- bitmap, and a frame is then free exactly if it lies in the memory, above the first megabyte and
-- outside the kernel image.
pub init_basic-map :
    (mem_upper_kb kernel_start kernel_end : ℕ) (p : Pmm)
    → p.total_frames ≤ max_frames
    → p.used_frames < 2 ^ 32
    → (1024 + mem_upper_kb) * 1024 < 2 ^ 32
    → kernel_start ≤ kernel_end
    → kernel_end ≤ max_frames * frame_size
    → (r : Pmm) × (init_basic mem_upper_kb kernel_start kernel_end p ≡ some r)
      × IsValid r
      × ((g : ℕ)
          → g < max_frames
          → used r g ≡ (
              in_range
                (kernel_start / frame_size)
                (touched kernel_start (kernel_end - kernel_start))
                g
              || ltb g 256
              || not (ltb g (memory_frames mem_upper_kb))))
unfolding init_basic
init_basic-map mem ks ke p total small fits ordered inside =
    let (bits, e, long, marks) =
      clear_frames_lem (memory_frames mem) 0 all_used length-all_used (ground arith) in
    let base : IsValid (record p { bitmap = bits }) = record { words = long; total = total } in
    let (q, e', low) = mark_used_region_marks 0 0x100000 base small (omega arith) in
    let (r, e'', image) =
      mark_used_region_marks ks (ke - ks) low.valid (omega (arith, low.counter)) (omega arith) in
    let kb : (1024 + mem) % 2 ^ 32 ≡ 1024 + mem = omega arith in
    let bytes : (1024 + mem) * 1024 % 2 ^ 32 ≡ (1024 + mem) * 1024 = omega arith in
    let size : (ke + 2 ^ 32 - ks) % 2 ^ 32 ≡ ke - ks = omega arith in
    (
      r,
      rw (kb, bytes, e, e', size) e'',
      image.valid,
      λ g h. ground (arith, image.frames g, low.frames g, marks g, all_used-is_used g h),
    )
