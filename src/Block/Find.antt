-- ===== src/Block/Find.antt =====
-- Which device kernel/block.c finds by its name.
use reta_os.Prelude.{
  ℕ, ◌≡◌, refl, ap, ◌∙◌, ◌<◌, Bool, true, false, Option, none, some, List, [], ◌∷◌, ◌++◌, leb,
  if◌then◌else◌, length, arith,
}
use reta_os.Prelude.Int.{pos, is_zero}
use reta_os.Text.{strcmp}
use reta_os.Text.Compare.{strcmp_self}
use reta_os.Block.{Device, max_blk_devs, usable, blk_register, same_text, blk_find}

-- The comparison of names in `blk_find` holds exactly where `strcmp` returns 0.
same_text-strcmp : (s t : List ℕ) → same_text s t ≡ is_zero (strcmp s t)
unfolding same_text strcmp
same_text-strcmp [] [] = refl
same_text-strcmp [] (b ∷ t) = ground arith
same_text-strcmp (a ∷ s) [] = ground arith
same_text-strcmp (a ∷ s) (b ∷ t) = ground (arith, same_text-strcmp s t)

same_text_self : (s : List ℕ) → same_text s s ≡ true
same_text_self s = same_text-strcmp s s ∙ ap is_zero (strcmp_self s)

find_one :
    (name : List ℕ) (d : Device) (found : Option Device)
    → d.name ≡ some name
    → some d ≡ found
    → blk_find name (d ∷ []) ≡ found
unfolding blk_find
find_one name d found e h = rw (e, same_text_self name) h

-- A device `c` that is not found has no influence on what is found behind it.
passed_over :
    (name : List ℕ) (c : Device) (own : Option (List ℕ)) (x y : Option Device)
    → elim own [ none ↦ x | some n ↦ if same_text n name then some c else x ] ≡ none
    → (x ≡ none) × (elim own [ none ↦ y | some n ↦ if same_text n name then some c else y ] ≡ y)
passed_over name c none x y h = (h, refl)
passed_over name c (some n) x y h = go (same_text n name) h
  where
    go :
        (b : Bool) → (if b then some c else x) ≡ none → (x ≡ none) × ((if b then some c else y) ≡ y)
    go true h = absurd (ground (arith, h))
    go false h = (h, refl)

find_behind :
    (name : List ℕ) (d : Device) (devs : List Device)
    → d.name ≡ some name
    → blk_find name devs ≡ none
    → blk_find name (devs ++ d ∷ []) ≡ some d
unfolding blk_find
find_behind name d [] e none_found = find_one name d (some d) e refl
find_behind name d (c ∷ devs) e none_found =
    let (none_behind, skipped) =
      passed_over name c c.name (blk_find name devs) (blk_find name (devs ++ d ∷ [])) none_found in
    skipped ∙ find_behind name d devs e none_behind

-- A device that has a name and a read function, and is registered while fewer than eight devices
-- are and none is found by its name, is registered with success and then found by that name.
blk_find-blk_register :
    (name : List ℕ) (d : Device) (devs : List Device)
    → d.name ≡ some name
    → usable d ≡ true
    → length devs < max_blk_devs
    → blk_find name devs ≡ none
    → ((blk_register d devs).0 ≡ pos 0) × (blk_find name (blk_register d devs).1 ≡ some d)
unfolding blk_register
blk_find-blk_register name d devs e ok room none_found =
    let space : leb max_blk_devs (length devs) ≡ false = ground arith in
    rw (ok, space) (refl, find_behind name d devs e none_found)
