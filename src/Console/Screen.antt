-- ===== src/Console/Screen.antt =====
-- The cursor and the cells of the screen under `console_putc` and `console_puts` of
-- kernel/console.c.
use reta_os.Prelude.{
  ℕ, suc, ◌+◌, ◌-◌, ◌*◌, ◌/◌, ◌^◌, ◌≤◌, ◌<◌, ◌≡◌, refl, sym, subst, inl, inr, true, false, ◌&&◌,
  some, List, [], ◌∷◌, ◌++◌, arith, ltb, leb, ◌==◌, Bool-cases, length, set, replicate, drop,
  length-append, length-set, length-drop, length-replicate, add_last, length-add_last,
}
use reta_os.Prelude.Bits.{bit_and-shifted, bit_and_ones}
use reta_os.Vfs.Node.{u32}
use reta_os.Console.{Console, cell, store, put_one, wrap_line, console_putc, console_puts}
use reta_os.Console.Scroll.{console_scroll_lem, store-split}
use Prim.Native.Nat.{bit_and}
use mathlib.Core.List.{map}

-- The screen has its 2000 cells and the cursor stands in it.
abbrev pub IsConsole : Console → Type 0
IsConsole c = (length c.vga_buffer ≡ 2000) × (c.x < 80) × (c.y < 25)

-- Before the wrapping of a full line and the scrolling the cursor may stand one step outside, to the
-- right or below.
abbrev IsPut : Console → Type 0
IsPut c = (length c.vga_buffer ≡ 2000) × (c.x ≤ 80) × (c.y ≤ 25) × (c.y ≡ 25 → c.x ≡ 0)

tab_stop : (x : ℕ) → x < 80 → bit_and (u32 (x + 8)) (2 ^ 32 - 8) ≡ (x + 8) / 8 * 8
tab_stop x h =
    let word : u32 (x + 8) ≡ x + 8 = omega arith in
    rw word (omega (arith, bit_and-shifted 3 (2 ^ 29 - 1) (x + 8), bit_and_ones 29 ((x + 8) / 8)))

length-store :
    (cells : List ℕ) (i v : ℕ) → i < length cells → store cells i v ≡ some (set cells i v)
unfolding store
length-store cells i v h = let inside : ltb i (length cells) ≡ true = ground arith in rw inside refl

put_one-IsPut :
    (c : Console) (ch : ℕ) → IsConsole c → (p : Console) × (put_one c ch ≡ some p) × IsPut p
unfolding put_one
put_one-IsPut c ch (size, in_line, in_screen) = elim (Bool-cases (ch == b'\n')) [
  | inl e ↦ (
    record c { x = 0; y = u32 (c.y + 1) },
    rw e refl,
    (size, omega arith, omega arith, λ h. refl),
  )
  | inr e ↦ elim (Bool-cases (ch == b'\r')) [
    | inl f ↦ (record c { x = 0 }, rw (e, f) refl, (size, omega arith, omega arith, λ h. refl))
    | inr f ↦ elim (Bool-cases (ch == b'\t')) [
      | inl g ↦ (
        record c { x = bit_and (u32 (c.x + 8)) (2 ^ 32 - 8) },
        rw (e, f, g) refl,
        (size, omega (arith, tab_stop c.x in_line), omega arith, λ h. absurd (omega (arith, h))),
      )
      | inr g ↦ elim (Bool-cases (leb b' ' ch && ltb ch 128)) [
        | inl k ↦
            let at = c.y * 80 + c.x in
            let v = cell c.attr ch in
            (
              record c { vga_buffer = set c.vga_buffer at v; x = u32 (c.x + 1) },
              rw (e, f, g, k, length-store c.vga_buffer at v (omega (arith, size))) refl,
              (
                omega (arith, length-set c.vga_buffer at v, size),
                omega arith,
                omega arith,
                λ h. absurd (omega (arith, h)),
              ),
            )
        | inr k ↦ (
          c,
          rw (e, f, g, k) refl,
          (size, omega arith, omega arith, λ h. absurd (omega (arith, h))),
        )
      ]
    ]
  ]
]

wrap_line-lem :
    (p : Console)
    → IsPut p
    → (length (wrap_line p).vga_buffer ≡ 2000) × ((wrap_line p).x < 80) × ((wrap_line p).y ≤ 25)
unfolding wrap_line
wrap_line-lem p (size, in_line, in_screen, near) = elim (Bool-cases (leb 80 p.x)) [
  | inl full ↦ rw full (size, omega arith, ground (arith, full, near))
  | inr room ↦ rw room (size, ground (arith, room), in_screen)
]

-- No character makes `console_putc` write outside the screen: on a screen with its 2000 cells and
-- the cursor inside it has a result, which is such a screen again.
pub console_putc-IsConsole :
    (c : Console) (ch : ℕ)
    → IsConsole c
    → (c' : Console) × (console_putc c ch ≡ some c') × IsConsole c'
unfolding console_putc
console_putc-IsConsole c ch h =
    let (p, e, is_put) = put_one-IsPut c ch h in
    let (size, in_line, near) = wrap_line-lem p is_put in
    elim (Bool-cases (leb 25 (wrap_line p).y)) [
      | inl full ↦
          let w = wrap_line p in
          let blank = replicate 80 (cell w.attr b' ') in
          (
            record w { vga_buffer = drop 80 w.vga_buffer ++ blank; y = w.y - 1 },
            rw (e, full) (console_scroll_lem w size),
            (
              omega (
                arith,
                size,
                length-append (drop 80 w.vga_buffer) blank,
                length-drop 80 w.vga_buffer,
                length-replicate 80 (cell w.attr b' '),
              ),
              in_line,
              omega (arith, near),
            ),
          )
      | inr room ↦ (wrap_line p, rw (e, room) refl, (size, in_line, ground (arith, room)))
    ]

-- `console_puts` and all that print by it stay on the screen: from a screen with its 2000 cells and
-- the cursor inside it every string is printed, and such a screen is left.
pub console_puts-IsConsole :
    (str : List ℕ) (c : Console)
    → IsConsole c
    → (c' : Console) × (console_puts c str ≡ some c') × IsConsole c'
unfolding console_puts
console_puts-IsConsole [] c h = (c, refl, h)
console_puts-IsConsole (ch ∷ str) c h = elim (Bool-cases (ch == 0)) [
  | inl e ↦ (c, rw e refl, h)
  | inr e ↦
      let (next, put, good) = console_putc-IsConsole c ch h in
      let (last, rest, end) = console_puts-IsConsole str next good in (last, rw (e, put) rest, end)
]

abbrev pub IsPrintable : List ℕ → Type 0
IsPrintable [] = Unit {0}
IsPrintable (ch ∷ str) = (b' ' ≤ ch) × (ch < 128) × IsPrintable str

-- A printable character before the last column goes into the cell under the cursor.
console_putc-printable :
    (c : Console) (ch : ℕ) (pre : List ℕ) (old : ℕ) (post : List ℕ)
    → b' ' ≤ ch
    → ch < 128
    → c.vga_buffer ≡ pre ++ (old ∷ post)
    → length pre ≡ c.y * 80 + c.x
    → c.x + 1 < 80
    → c.y < 25
    → console_putc c ch
      ≡ some (record c { vga_buffer = pre ++ (cell c.attr ch ∷ post); x = c.x + 1 })
unfolding console_putc put_one wrap_line
console_putc-printable c ch pre old post low high split at in_line in_screen =
    let n : (ch == b'\n') ≡ false = ground (arith, low) in
    let r : (ch == b'\r') ≡ false = ground (arith, low) in
    let t : (ch == b'\t') ≡ false = ground (arith, low) in
    let shown : (leb b' ' ch && ltb ch 128) ≡ true = ground (arith, low, high) in
    let stored : store c.vga_buffer (c.y * 80 + c.x) (cell c.attr ch)
        ≡ some (pre ++ (cell c.attr ch ∷ post)) =
      subst
        (λ (b : List ℕ).
          store b (c.y * 80 + c.x) (cell c.attr ch) ≡ some (pre ++ (cell c.attr ch ∷ post)))
        (sym split) (store-split pre old post (c.y * 80 + c.x) (cell c.attr ch) (sym at)) in
    let word : u32 (c.x + 1) ≡ c.x + 1 = omega arith in
    let narrow : leb 80 (c.x + 1) ≡ false = ground arith in
    let above : leb 25 c.y ≡ false = ground arith in
    rw (n, r, t, shown, stored, word, narrow, above) refl

-- A printable text that ends before the last column stands, after `console_puts`, in the cells
-- from the cursor on, in the current colours. The other cells are as before, and the cursor
-- stands behind the text.
pub console_puts-shows :
    (text : List ℕ) (c : Console) (pre old post : List ℕ)
    → IsPrintable text
    → c.vga_buffer ≡ pre ++ (old ++ post)
    → length pre ≡ c.y * 80 + c.x
    → length old ≡ length text
    → c.x + length text < 80
    → c.y < 25
    → console_puts c text
      ≡ some
          (record c { vga_buffer = pre ++ (map (cell c.attr) text ++ post); x = c.x + length text })
unfolding console_puts
console_puts-shows [] c pre [] post printable split at size in_line in_screen =
    let x : c.x + 0 ≡ c.x = omega arith in rw (x, ← split) refl
console_puts-shows [] c pre (o ∷ old) post printable split at size in_line in_screen =
    absurd (omega (arith, size))
console_puts-shows (ch ∷ text) c pre [] post printable split at size in_line in_screen =
    absurd (omega (arith, size))
console_puts-shows (ch ∷ text) c pre (o ∷ old) post (low, high, printable) split at size in_line
      in_screen =
    let going : (ch == 0) ≡ false = ground (arith, low) in
    let first =
      console_putc-printable c ch pre o (old ++ post) low high split at (omega arith) in_screen in
    let v = cell c.attr ch in
    let next : Console = record c { vga_buffer = pre ++ (v ∷ (old ++ post)); x = c.x + 1 } in
    let rest =
      console_puts-shows text next (pre ++ (v ∷ [])) old post printable
        (sym (add_last pre v (old ++ post))) (omega (arith, length-add_last pre v, at))
        (omega (arith, size)) (omega arith) in_screen in
    let x : c.x + 1 + length text ≡ c.x + suc (length text) = omega arith in
    rw (going, first) (rw (add_last pre v (map (cell c.attr) text ++ post), x) at rest)
