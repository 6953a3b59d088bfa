-- ===== src/Frames/Tests.antt =====
-- Runs of the frame allocator of memory/pmm.c, and its theorems at concrete states.
use reta_os.Prelude.{ℕ, ◌<◌, ◌≡◌, refl, not, ◌||◌, none, some, ◌∷◌, arith, ltb, replicate}
use reta_os.Frames.{
  Pmm, max_frames, alloc_frame, mark_used_region, init_basic, MmapEntry, add_region,
}
use reta_os.Prelude.Bits.{bit_at}
use reta_os.Frames.Bitmap.{set_frame, test_frame, is_used}
use reta_os.Frames.Alloc.{
  IsValid, used, Searched, Restored, alloc_frame-takes_lowest, free_frame-alloc_frame,
}
use reta_os.Frames.Regions.{MarksRange, in_range, mark_used_region_marks, add_region-leaves_bitmap}
use reta_os.Frames.Init.{memory_frames, init_basic-map}

-- Frame 0 of three is used.
abbrev one_used : Pmm
one_used = record {
  total_frames = 3;
  used_frames = 1;
  highest_frame_index = 3;
  bitmap = 1 ∷ replicate 1023 0;
}

abbrev two_used : Pmm
two_used = record one_used { used_frames = 2; bitmap = 3 ∷ replicate 1023 0 }

one_used-IsValid : IsValid one_used
one_used-IsValid = record { words = refl; total = omega arith }

alloc_run : alloc_frame one_used ≡ some (4096, two_used)
unfolding alloc_frame set_frame test_frame
alloc_run = refl

alloc_frame-takes_lowest_example : Searched one_used 0 3 (alloc_frame one_used)
alloc_frame-takes_lowest_example = alloc_frame-takes_lowest one_used-IsValid

free_frame-alloc_frame_example : Restored one_used 4096 two_used
unfolding is_used bit_at alloc_frame set_frame test_frame
free_frame-alloc_frame_example =
    free_frame-alloc_frame 4096 two_used one_used-IsValid (omega arith) (1, omega arith, refl) refl

mark_used_region_marks_example :
    (q : Pmm) × (mark_used_region 5000 4000 one_used ≡ some q) × MarksRange one_used 1 2 q
mark_used_region_marks_example =
    mark_used_region_marks 5000 4000 one_used-IsValid (omega arith) (omega arith)

abbrev high_region : MmapEntry
high_region = record { addr = 0x100000; len = 0x1000_0000; type = 1 }

add_region-leaves_bitmap_example : add_region high_region one_used ≡ none
add_region-leaves_bitmap_example =
    add_region-leaves_bitmap high_region one_used-IsValid refl (omega arith) (omega arith)
      (omega arith)

init_basic-map_example :
    (r : Pmm) × (init_basic 15360 0x100000 0x140000 one_used ≡ some r)
    × IsValid r
    × ((g : ℕ)
        → g < max_frames
        → used r g ≡ (in_range 256 64 g || ltb g 256 || not (ltb g (memory_frames 15360))))
init_basic-map_example =
    init_basic-map 15360 0x100000 0x140000 one_used (omega arith) (omega arith) (omega arith)
      (omega arith) (omega arith)
