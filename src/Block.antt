-- ===== src/Block.antt =====
-- kernel/block.c: the table of at most eight block devices.
mod Tests
pub mod Find
use reta_os.Prelude.{
  ℕ, zero, suc, Bool, true, false, not, ◌&&◌, ◌||◌, Option, none, some, List, [], ◌∷◌, ◌++◌, leb,
  ◌==◌, if◌then◌else◌, length, get_elem?,
}
use reta_os.Prelude.Int.{ℤ, pos, negsuc, minus}

abbrev pub max_blk_devs : ℕ
max_blk_devs = 8

-- `block_dev_t`; `none` is NULL. The result of `read` for a sector and a count, and the bytes that it
-- puts into the buffer.
pub record Device : Type 0 where
  pub name : Option (List ℕ)
  pub read : Option (ℕ → ℕ → ℤ × List ℕ)

unfoldable pub usable : Device → Bool
usable d = elim (d.read) [ none ↦ false | some r ↦ elim (d.name) [ none ↦ false | some n ↦ true ] ]

-- `blk_register` of a pointer that is not NULL.
pub blk_register : Device → List Device → ℤ × List Device
blk_register d devs =
    if not (usable d)
    then (minus 1, devs)
    else (if leb max_blk_devs (length devs) then (minus 2, devs) else (pos 0, devs ++ d ∷ []))

pub blk_get : List Device → ℤ → Option Device
blk_get devs (pos i) = get_elem? devs i
blk_get devs (negsuc i) = none

-- The comparison of names in `blk_find`, where a string ends at its end or at a 0.
pub same_text : List ℕ → List ℕ → Bool
same_text [] [] = true
same_text [] (b ∷ t) = b == 0
same_text (a ∷ s) [] = a == 0
same_text (a ∷ s) (b ∷ t) =
    let rest = same_text s t in
    if not (a == 0) && (not (b == 0) && a == b) then rest else a == 0 && b == 0

unfoldable pub blk_find : List ℕ → List Device → Option Device
blk_find name [] = none
blk_find name (d ∷ devs) =
    let rest = blk_find name devs in
    elim (d.name) [ none ↦ rest | some n ↦ if same_text n name then some d else rest ]

-- `blk_read` into a buffer that is not NULL.
pub blk_read : Device → (lba count : ℕ) → ℤ × List ℕ
blk_read d lba count = elim (d.read) [
  | none ↦ (minus 1, [])
  | some read ↦ if count == 0 then (minus 1, []) else read lba count
]

pub blk_read_byname : List Device → List ℕ → (lba count : ℕ) → ℤ × List ℕ
blk_read_byname devs name lba count = elim (blk_find name devs) [
  | none ↦ (minus 1, [])
  | some d ↦ blk_read d lba count
]
