-- ===== src/Console/Scroll.antt =====
-- The loops of `console_clear` and `console_scroll` of kernel/console.c over the lines of the screen.
use reta_os.Prelude.{
  ℕ, zero, suc, ◌+◌, ◌-◌, ◌*◌, ◌≡◌, refl, ap, ◌∙◌, true, Option, some, List, [], ◌∷◌, ◌++◌, arith,
  ltb, if◌then◌else◌, length, get_elem?, replicate, drop, take, length-append, append_assoc,
  append-nil, fun_ext, Option-cases, inl, inr, ◌<◌, length-drop, length-take, take-append-drop,
  set-split, get_elem?-split, add_last, length-add_last,
}
use reta_os.Prelude.Maybe.{◌>>=◌}
use reta_os.Console.{
  Console, cell, store, copy_cell, fill_line, move_line, fill_lines, move_lines, console_clear,
  console_scroll,
}

pub store-split :
    (pre : List ℕ) (x : ℕ) (post : List ℕ) (i v : ℕ)
    → i ≡ length pre
    → store (pre ++ (x ∷ post)) i v ≡ some (pre ++ (v ∷ post))
unfolding store
store-split pre x post i v e =
    let inside : ltb (length pre) (length (pre ++ (x ∷ post))) ≡ true =
      ground (arith, length-append pre (x ∷ post)) in
    rw (e, inside, set-split pre x post v) refl

-- Copying the cell that stands behind `w`.
copy_cell-split :
    (pre : List ℕ) (a : ℕ) (w : List ℕ) (b : ℕ) (post : List ℕ) (to_index from_index : ℕ)
    → to_index ≡ length pre
    → from_index ≡ to_index + suc (length w)
    → copy_cell (pre ++ (a ∷ (w ++ (b ∷ post)))) to_index from_index
      ≡ some (pre ++ (b ∷ (w ++ (b ∷ post))))
unfolding copy_cell
copy_cell-split pre a w b post to_index from_index e f =
    let at : length (pre ++ (a ∷ w)) ≡ from_index =
      omega (arith, length-append pre (a ∷ w), e, f) in
    let found : get_elem? (pre ++ (a ∷ (w ++ (b ∷ post)))) from_index ≡ some b =
      rw (← at, ← append_assoc pre (a ∷ w) (b ∷ post)) (get_elem?-split (pre ++ (a ∷ w)) b post) in
    rw found (store-split pre a (w ++ (b ∷ post)) to_index b e)

fill_line-split :
    (n index v : ℕ) (pre mid post : List ℕ)
    → index ≡ length pre
    → n ≡ length mid
    → fill_line n index v (pre ++ (mid ++ post)) ≡ some (pre ++ (replicate n v ++ post))
unfolding fill_line
fill_line-split zero index v pre [] post e f = refl
fill_line-split zero index v pre (m ∷ mid) post e f = absurd (omega (arith, f))
fill_line-split (suc n) index v pre [] post e f = absurd (omega (arith, f))
fill_line-split (suc n) index v pre (m ∷ mid) post e f =
    let rest =
      fill_line-split n (index + 1) v (pre ++ (v ∷ [])) mid post
        (omega (arith, length-add_last pre v, e)) (omega (arith, f)) in
    rw (store-split pre m (mid ++ post) index v e)
      (rw (add_last pre v (mid ++ post), add_last pre v (replicate n v ++ post)) at rest)

-- What the window `w` of one line holds after `rest` has gone through it.
slide : List ℕ → List ℕ → List ℕ
slide w [] = w
slide [] (b ∷ rest) = []
slide (a ∷ w) (b ∷ rest) = slide (w ++ (b ∷ [])) rest

length-slide : (rest w : List ℕ) → length (slide w rest) ≡ length w
unfolding slide
length-slide [] w = refl
length-slide (b ∷ rest) [] = refl
length-slide (b ∷ rest) (a ∷ w) =
    omega (arith, length-slide rest (w ++ (b ∷ [])), length-add_last w b)

move_line-slide :
    (rest w pre : List ℕ) (n to_index from_index : ℕ)
    → to_index ≡ length pre
    → from_index ≡ to_index + length w
    → n ≡ length rest
    → 0 < length w
    → move_line n to_index from_index (pre ++ (w ++ rest)) ≡ some (pre ++ (rest ++ slide w rest))
unfolding move_line slide
move_line-slide [] w pre zero to_index from_index e f g h = rw (append-nil w) refl
move_line-slide [] w pre (suc n) to_index from_index e f g h = absurd (omega (arith, g))
move_line-slide (b ∷ rest) w pre zero to_index from_index e f g h = absurd (omega (arith, g))
move_line-slide (b ∷ rest) [] pre (suc n) to_index from_index e f g h = absurd (omega (arith, h))
move_line-slide (b ∷ rest) (a ∷ w) pre (suc n) to_index from_index e f g h =
    let next = w ++ (b ∷ []) in
    let moved =
      move_line-slide rest next (pre ++ (b ∷ [])) n (to_index + 1) (from_index + 1)
        (omega (arith, length-add_last pre b, e)) (omega (arith, length-add_last w b, f))
        (omega (arith, g)) (omega (arith, length-add_last w b)) in
    rw (copy_cell-split pre a w b rest to_index from_index e (omega (arith, f))) (
      rw
        (add_last pre b (next ++ rest), add_last w b rest, add_last pre b (rest ++ slide next rest))
        at moved)

-- A run of copies in two parts.
move_line-add :
    (m n to_index from_index : ℕ) (cells : List ℕ)
    → move_line (m + n) to_index from_index cells ≡ (do
      cells ← move_line m to_index from_index cells
      move_line n (to_index + m) (from_index + m) cells)
unfolding move_line
move_line-add zero n to_index from_index cells =
    let s : to_index + 0 ≡ to_index = omega arith in
    let f : from_index + 0 ≡ from_index = omega arith in
    let z : 0 + n ≡ n = omega arith in rw (s, f, z) refl
move_line-add (suc m) n to_index from_index cells =
    let a : suc m + n ≡ suc (m + n) = omega arith in
    elim (Option-cases (copy_cell cells to_index from_index)) [
      | inl e ↦ rw (a, e) refl
      | inr (next, e) ↦
          let s : to_index + 1 + m ≡ to_index + suc m = omega arith in
          let f : from_index + 1 + m ≡ from_index + suc m = omega arith in
          rw (a, e) (rw (s, f) at (move_line-add m n (to_index + 1) (from_index + 1) next))
    ]

fill_line-add :
    (m n index v : ℕ) (cells : List ℕ)
    → fill_line (m + n) index v cells
      ≡ (do cells ← fill_line m index v cells; fill_line n (index + m) v cells)
unfolding fill_line
fill_line-add zero n index v cells =
    let s : index + 0 ≡ index = omega arith in let z : 0 + n ≡ n = omega arith in rw (s, z) refl
fill_line-add (suc m) n index v cells =
    let a : suc m + n ≡ suc (m + n) = omega arith in
    elim (Option-cases (store cells index v)) [
      | inl e ↦ rw (a, e) refl
      | inr (next, e) ↦
          let s : index + 1 + m ≡ index + suc m = omega arith in
          rw (a, e) (rw s at (fill_line-add m n (index + 1) v next))
    ]

-- The lines lie one behind the other, so the two loops are one over their cells.
move_lines-flat :
    (n y : ℕ) (cells : List ℕ)
    → move_lines n (suc y) cells ≡ move_line (n * 80) (y * 80) (suc y * 80) cells
unfolding move_lines
move_lines-flat zero y cells = unfold move_line in refl
move_lines-flat (suc n) y cells =
    let back : suc y - 1 ≡ y = omega arith in
    let more : suc n * 80 ≡ 80 + n * 80 = omega arith in
    let s : y * 80 + 80 ≡ suc y * 80 = omega arith in
    let f : suc y * 80 + 80 ≡ suc (suc y) * 80 = omega arith in
    let next : suc y + 1 ≡ suc (suc y) = omega arith in
    rw (back, more, move_line-add 80 (n * 80) (y * 80) (suc y * 80) cells, s, f, next)
      (ap (λ (k : List ℕ → Option (List ℕ)). move_line 80 (y * 80) (suc y * 80) cells >>= k)
        (fun_ext (λ c. move_lines-flat n (suc y) c)))

fill_lines-flat :
    (n y v : ℕ) (cells : List ℕ) → fill_lines n y v cells ≡ fill_line (n * 80) (y * 80) v cells
unfolding fill_lines
fill_lines-flat zero y v cells = unfold fill_line in refl
fill_lines-flat (suc n) y v cells =
    let more : suc n * 80 ≡ 80 + n * 80 = omega arith in
    let s : y * 80 + 80 ≡ (y + 1) * 80 = omega arith in
    rw (more, fill_line-add 80 (n * 80) (y * 80) v cells, s)
      (ap (λ (k : List ℕ → Option (List ℕ)). fill_line 80 (y * 80) v cells >>= k)
        (fun_ext (λ c. fill_lines-flat n (y + 1) v c)))

fill_all :
    (cells : List ℕ) (v : ℕ)
    → length cells ≡ 2000
    → fill_lines 25 0 v cells ≡ some (replicate 2000 v)
fill_all cells v size =
    let filled = fill_line-split 2000 0 v [] cells [] refl (omega (arith, size)) in
    fill_lines-flat 25 0 v cells ∙ (rw (append-nil cells, append-nil (replicate 2000 v)) at filled)

-- The screen is cleared to spaces in the current colours, and the cursor goes to the upper left.
pub console_clear_lem :
    (c : Console)
    → length c.vga_buffer ≡ 2000
    → console_clear c
      ≡ some (record c { vga_buffer = replicate 2000 (cell c.attr b' '); x = 0; y = 0 })
unfolding console_clear
console_clear_lem c size = rw (fill_all c.vga_buffer (cell c.attr b' ') size) refl

-- After the loop of `console_scroll` over the lines the screen holds its lines but the first, and
-- something in the last line.
moved_up :
    (cells : List ℕ)
    → length cells ≡ 2000
    → (line : List ℕ) × (length line ≡ 80) × (move_lines 24 1 cells ≡ some (drop 80 cells ++ line))
moved_up cells size =
    let first = take 80 cells in
    let rest = drop 80 cells in
    let wide : length first ≡ 80 = omega (arith, length-take 80 cells, size) in
    let long : length rest ≡ 1920 = omega (arith, length-drop 80 cells, size) in
    let moved =
      move_line-slide rest first [] 1920 0 80 refl (omega (arith, wide)) (omega (arith, long))
        (omega (arith, wide)) in
    (
      slide first rest,
      omega (arith, length-slide rest first, wide),
      move_lines-flat 24 0 cells ∙ (rw (take-append-drop 80 cells) at moved),
    )

-- On a screen of 2000 cells `console_scroll` moves each line up by one, puts spaces in the last
-- line, and moves the cursor up unless it is in the first line.
pub console_scroll_lem :
    (c : Console)
    → length c.vga_buffer ≡ 2000
    → console_scroll c
      ≡ some (record c {
        vga_buffer = drop 80 c.vga_buffer ++ replicate 80 (cell c.attr b' ');
        y = c.y - 1;
      })
unfolding console_scroll
console_scroll_lem c size =
    let (line, wide, moved) = moved_up c.vga_buffer size in
    let blank = cell c.attr b' ' in
    let long : 1920 ≡ length (drop 80 c.vga_buffer) =
      omega (arith, length-drop 80 c.vga_buffer, size) in
    let filled =
      fill_line-split 80 1920 blank (drop 80 c.vga_buffer) line [] long (omega (arith, wide)) in
    let up : (if ltb 0 c.y then c.y - 1 else c.y) ≡ c.y - 1 = ground arith in
    rw (moved, rw (append-nil line, append-nil (replicate 80 blank)) at filled, up) refl
