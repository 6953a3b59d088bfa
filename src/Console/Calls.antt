-- ===== src/Console/Calls.antt =====
-- Sequences of calls of the functions of kernel/console.c.
use reta_os.Prelude.{
  ℕ, ◌-◌, ◌^◌, ◌<◌, ◌≡◌, refl, inl, inr, Bool-cases, Option, some, List, [], ◌∷◌, ◌++◌, arith, ltb,
  replicate, drop, length-append, length-drop, length-replicate,
}
use reta_os.Prelude.Maybe.{◌>>=◌}
use reta_os.Text.Numerals.{fixed_hex, upper_hex_char}
use reta_os.Text.Expand.{decimal}
use reta_os.Console.{
  Console, cell, console_clear, console_scroll, console_putc, console_puts, console_init,
  console_set_attr, console_set_color, console_set_cursor,
}
use reta_os.Console.Scroll.{console_clear_lem, console_scroll_lem}
use reta_os.Console.Screen.{IsConsole, console_putc-IsConsole, console_puts-IsConsole}
use reta_os.Console.Print.{console_put_hex, console_put_dec}
use reta_os.Console.Print.Digits.{console_put-numbers}
use reta_os.Console.Print.Format.{put_all-IsConsole}

pub data Call : Type 0 where
  init clear scroll : Call
  putc : ℕ → Call
  puts : List ℕ → Call
  set_attr : ℕ → Call
  set_color set_cursor : ℕ → ℕ → Call
  put_hex put_dec : ℕ → Call

unfoldable pub perform : Call → Console → Option Console
perform init c = console_init c
perform clear c = console_clear c
perform scroll c = console_scroll c
perform (putc ch) c = console_putc c ch
perform (puts str) c = console_puts c str
perform (set_attr attr) c = some (console_set_attr c attr)
perform (set_color fg bg) c = some (console_set_color c fg bg)
perform (set_cursor x y) c = some (console_set_cursor c x y)
perform (put_hex n) c = console_put_hex c n
perform (put_dec n) c = console_put_dec c n

unfoldable pub perform_all : List Call → Console → Option Console
perform_all [] c = some c
perform_all (call ∷ calls) c = do c ← perform call c; perform_all calls c

-- Numbers that are printed are words of 32 bits.
abbrev pub AreCalls : List Call → Type 0
AreCalls [] = Unit {0}
AreCalls (put_hex n ∷ calls) = (n < 2 ^ 32) × AreCalls calls
AreCalls (put_dec n ∷ calls) = (n < 2 ^ 32) × AreCalls calls
AreCalls (init ∷ calls) = AreCalls calls
AreCalls (clear ∷ calls) = AreCalls calls
AreCalls (scroll ∷ calls) = AreCalls calls
AreCalls (putc ch ∷ calls) = AreCalls calls
AreCalls (puts str ∷ calls) = AreCalls calls
AreCalls (set_attr attr ∷ calls) = AreCalls calls
AreCalls (set_color fg bg ∷ calls) = AreCalls calls
AreCalls (set_cursor x y ∷ calls) = AreCalls calls

abbrev Kept : Option Console → Type 0
Kept o = (c : Console) × (o ≡ some c) × IsConsole c

clear-Kept : (c : Console) → IsConsole c → Kept (console_clear c)
clear-Kept c (size, in_line, in_screen) = (
  record c { vga_buffer = replicate 2000 (cell c.attr b' '); x = 0; y = 0 },
  console_clear_lem c size,
  (length-replicate {A = ℕ} 2000 (cell c.attr b' '), omega arith, omega arith),
)

scroll-Kept : (c : Console) → IsConsole c → Kept (console_scroll c)
scroll-Kept c (size, in_line, in_screen) =
    let blank = replicate 80 (cell c.attr b' ') in
    let rest = drop 80 c.vga_buffer in
    (
      record c { vga_buffer = rest ++ blank; y = c.y - 1 },
      console_scroll_lem c size,
      (
        omega (
          arith,
          size,
          length-append rest blank,
          length-drop 80 c.vga_buffer,
          length-replicate {A = ℕ} 80 (cell c.attr b' '),
        ),
        in_line,
        omega arith,
      ),
    )

set_cursor-IsConsole : (c : Console) (x y : ℕ) → IsConsole c → IsConsole (console_set_cursor c x y)
unfolding console_set_cursor
set_cursor-IsConsole c x y h = elim (Bool-cases (ltb x 80)) [
  | inl e ↦ elim (Bool-cases (ltb y 25)) [
    | inl f ↦ rw (e, f) (h.0, ground (arith, e), ground (arith, f))
    | inr f ↦ rw (e, f) (h.0, ground (arith, e), h.2)
  ]
  | inr e ↦ elim (Bool-cases (ltb y 25)) [
    | inl f ↦ rw (e, f) (h.0, h.1, ground (arith, f))
    | inr f ↦ rw (e, f) h
  ]
]

-- From a screen with its 2000 cells and the cursor inside it every sequence of calls of the
-- functions of kernel/console.c runs to its end with no access outside the screen, and leaves
-- such a screen. The numbers that are printed are words of 32 bits.
pub perform_all-IsConsole :
    (calls : List Call) (c : Console)
    → AreCalls calls
    → IsConsole c
    → (c' : Console) × (perform_all calls c ≡ some c') × IsConsole c'
unfolding perform_all perform console_init console_set_attr console_set_color
perform_all-IsConsole [] c words h = (c, refl, h)
perform_all-IsConsole (init ∷ calls) c words h =
    let (next, e, good) = clear-Kept c h in
    let (last, rest, end) = perform_all-IsConsole calls next words good in (last, rw e rest, end)
perform_all-IsConsole (clear ∷ calls) c words h =
    let (next, e, good) = clear-Kept c h in
    let (last, rest, end) = perform_all-IsConsole calls next words good in (last, rw e rest, end)
perform_all-IsConsole (scroll ∷ calls) c words h =
    let (next, e, good) = scroll-Kept c h in
    let (last, rest, end) = perform_all-IsConsole calls next words good in (last, rw e rest, end)
perform_all-IsConsole (putc ch ∷ calls) c words h =
    let (next, e, good) = console_putc-IsConsole c ch h in
    let (last, rest, end) = perform_all-IsConsole calls next words good in (last, rw e rest, end)
perform_all-IsConsole (puts str ∷ calls) c words h =
    let (next, e, good) = console_puts-IsConsole str c h in
    let (last, rest, end) = perform_all-IsConsole calls next words good in (last, rw e rest, end)
perform_all-IsConsole (set_attr attr ∷ calls) c words h =
    perform_all-IsConsole calls (record c { attr = attr }) words h
perform_all-IsConsole (set_color fg bg ∷ calls) c words h =
    perform_all-IsConsole calls (console_set_color c fg bg) words h
perform_all-IsConsole (set_cursor x y ∷ calls) c words h =
    perform_all-IsConsole calls (console_set_cursor c x y) words (set_cursor-IsConsole c x y h)
perform_all-IsConsole (put_hex n ∷ calls) c (small, words) h =
    let (next, e, good) = put_all-IsConsole (fixed_hex upper_hex_char 8 n) c h in
    let (last, rest, end) = perform_all-IsConsole calls next words good in
    (last, rw ((console_put-numbers c n small).0, e) rest, end)
perform_all-IsConsole (put_dec n ∷ calls) c (small, words) h =
    let (next, e, good) = put_all-IsConsole (decimal n) c h in
    let (last, rest, end) = perform_all-IsConsole calls next words good in
    (last, rw ((console_put-numbers c n small).1, e) rest, end)
