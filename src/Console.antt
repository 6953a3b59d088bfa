-- ===== src/Console.antt =====
-- kernel/console.c: the VGA text screen of 80 by 25 cells of 16 bits. `none` is a write or a read
-- outside the screen.
mod Tests
pub mod Scroll
pub mod Screen
pub mod Print
pub mod Calls
use reta_os.Prelude.{
  ℕ, zero, suc, ◌+◌, ◌-◌, ◌*◌, ◌/◌, ◌%◌, ◌^◌, ◌&&◌, Option, none, some, List, [], ◌∷◌, ◌==◌, leb,
  ltb, if◌then◌else◌, length, get_elem?, set,
}
use reta_os.Prelude.Maybe.{◌>>=◌}
use reta_os.Vfs.Node.{u32}
use Prim.Native.Nat.{bit_and, bit_or}

abbrev pub console_width : ℕ
console_width = 80

abbrev pub console_height : ℕ
console_height = 25

-- `vga_buffer`, `console_x`, `console_y` and `console_attr`.
pub record Console : Type 0 where
  pub vga_buffer : List ℕ
  pub x : ℕ
  pub y : ℕ
  pub attr : ℕ

-- `vga_buffer[i] = v` and `vga_buffer[i]`
unfoldable pub store : List ℕ → ℕ → ℕ → Option (List ℕ)
store cells i v = if ltb i (length cells) then some (set cells i v) else none

unfoldable pub copy_cell : List ℕ → (to_index from_index : ℕ) → Option (List ℕ)
copy_cell cells to_index from_index = do v ← get_elem? cells from_index; store cells to_index v

-- `(console_attr << 8) | c`
unfoldable pub cell : (attr c : ℕ) → ℕ
cell attr c = bit_or (attr * 2 ^ 8) c % 2 ^ 16

-- The inner loops, with the count of cells that are left: `n` stores of `v` from `index` on, and `n`
-- copies of the cell one line below.
unfoldable pub fill_line : (n index v : ℕ) → List ℕ → Option (List ℕ)
fill_line zero index v cells = some cells
fill_line (suc n) index v cells = do cells ← store cells index v; fill_line n (index + 1) v cells

unfoldable pub move_line : (n to_index from_index : ℕ) → List ℕ → Option (List ℕ)
move_line zero to_index from_index cells = some cells
move_line (suc n) to_index from_index cells = do
  cells ← copy_cell cells to_index from_index
  move_line n (to_index + 1) (from_index + 1) cells

-- The outer loops, with the count of lines that are left.
unfoldable pub fill_lines : (n y v : ℕ) → List ℕ → Option (List ℕ)
fill_lines zero y v cells = some cells
fill_lines (suc n) y v cells = do
  cells ← fill_line console_width (y * console_width) v cells
  fill_lines n (y + 1) v cells

unfoldable pub move_lines : (n y : ℕ) → List ℕ → Option (List ℕ)
move_lines zero y cells = some cells
move_lines (suc n) y cells = do
  cells ← move_line console_width ((y - 1) * console_width) (y * console_width) cells
  move_lines n (y + 1) cells

unfoldable pub console_clear : Console → Option Console
console_clear c = do
  cells ← fill_lines console_height 0 (cell c.attr b' ') c.vga_buffer
  some (record c { vga_buffer = cells; x = 0; y = 0 })

unfoldable pub console_scroll : Console → Option Console
console_scroll c = do
  moved ← move_lines (console_height - 1) 1 c.vga_buffer
  cells ← fill_line console_width ((console_height - 1) * console_width) (cell c.attr b' ') moved
  some (record c { vga_buffer = cells; y = if ltb 0 c.y then c.y - 1 else c.y })

-- The branches of `console_putc` on the character. A `char` is signed, so a byte from 128 on is
-- below the space.
unfoldable pub put_one : Console → ℕ → Option Console
put_one c ch =
    if ch == b'\n'
    then some (record c { x = 0; y = u32 (c.y + 1) })
    else if ch == b'\r'
    then some (record c { x = 0 })
    else if ch == b'\t'
    then some (record c { x = bit_and (u32 (c.x + 8)) (2 ^ 32 - 8) })
    else if leb b' ' ch && ltb ch 128
    then (do
      cells ← store c.vga_buffer (c.y * console_width + c.x) (cell c.attr ch)
      some (record c { vga_buffer = cells; x = u32 (c.x + 1) }))
    else some c

-- The wrapping of a full line behind it.
unfoldable pub wrap_line : Console → Console
wrap_line c = if leb console_width c.x then record c { x = 0; y = u32 (c.y + 1) } else c

unfoldable pub console_putc : Console → ℕ → Option Console
console_putc c ch = do
  put ← put_one c ch
  let wrapped = wrap_line put
  if leb console_height wrapped.y then console_scroll wrapped else some wrapped

-- The bytes of the string up to its end.
unfoldable pub console_puts : Console → List ℕ → Option Console
console_puts c [] = some c
console_puts c (ch ∷ str) = if ch == 0 then some c else do c ← console_putc c ch; console_puts c str

unfoldable pub console_init : Console → Option Console
console_init c = console_clear c

unfoldable pub console_set_attr : Console → ℕ → Console
console_set_attr c attr = record c { attr = attr }

unfoldable console_get_cursor : Console → ℕ × ℕ
console_get_cursor c = (c.x, c.y)

unfoldable pub console_set_color : Console → (fg bg : ℕ) → Console
console_set_color c fg bg = record c { attr = bit_or (bg * 2 ^ 4) (bit_and fg 15) % 2 ^ 8 }

unfoldable pub console_set_cursor : Console → (x y : ℕ) → Console
console_set_cursor c x y =
    let c = if ltb x console_width then record c { x = x } else c in
    if ltb y console_height then record c { y = y } else c
