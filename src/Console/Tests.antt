-- ===== src/Console/Tests.antt =====
-- A dark screen for kernel/console.c and kernel/console_utils.c.
use reta_os.Prelude.{
  ℕ, ◌-◌, ◌^◌, ◌≡◌, refl, none, some, List, [], ◌∷◌, ◌++◌, arith, replicate, drop, length-replicate,
}
use mathlib.Core.List.{map}
use reta_os.Text.Numerals.{upper_hex_char, hex_char, numeral, dec_char, fixed_hex}
use reta_os.Text.Expand.{word, decimal, signed_decimal, magnitude, negative, expand}
use reta_os.Text.Meaning.{int_arg}
use reta_os.Console.{Console, cell, console_scroll, console_puts}
use reta_os.Console.Scroll.{console_scroll_lem}
use reta_os.Console.Screen.{IsConsole, console_puts-shows}
use reta_os.Console.Calls.{
  Call, clear, set_cursor, set_color, puts, put_dec, perform_all, perform_all-IsConsole,
}
use reta_os.Console.Print.{put_all, console_put_hex, console_put_dec, console_vprintf}
use reta_os.Console.Print.Digits.{console_put-numbers}
use reta_os.Console.Print.Meaning.{console_meaning, eight_arg}
use reta_os.Console.Print.Format.{console_vprintf-prints}

abbrev dark : Console
dark = record { vga_buffer = replicate 2000 0; x = 0; y = 24; attr = 7 }

dark-IsConsole : IsConsole dark
dark-IsConsole = (length-replicate {A = ℕ} 2000 0, omega arith, omega arith)

console_scroll_lem_example :
    console_scroll dark
    ≡ some (record dark {
      vga_buffer = drop 80 (replicate 2000 0) ++ replicate 80 (cell 7 b' ');
      y = 23;
    })
console_scroll_lem_example = console_scroll_lem dark (length-replicate {A = ℕ} 2000 0)

abbrev calls : List Call
calls =
    clear
    ∷ set_cursor 79 24
    ∷ set_color 12 1
    ∷ puts (b'\t' ∷ b'!' ∷ b'\n' ∷ [])
    ∷ put_dec 4000000000
    ∷ []

perform_all-IsConsole_example : (c' : Console) × (perform_all calls dark ≡ some c') × IsConsole c'
perform_all-IsConsole_example = perform_all-IsConsole calls dark (omega arith) dark-IsConsole

abbrev top : Console
top = record { vga_buffer = replicate 2000 0; x = 0; y = 0; attr = 7 }

console_puts-shows_example :
    console_puts top (b'o' ∷ b'k' ∷ [])
    ≡ some (record top {
      vga_buffer = [] ++ (map (cell 7) (b'o' ∷ b'k' ∷ []) ++ replicate 1998 0);
      x = 2;
    })
console_puts-shows_example =
    console_puts-shows (b'o' ∷ b'k' ∷ []) top [] (0 ∷ 0 ∷ []) (replicate 1998 0) (omega arith) refl
      refl refl (omega arith) (omega arith)

console_put-numbers_example :
    (console_put_hex dark 255 ≡ put_all (fixed_hex upper_hex_char 8 255) dark)
    × (console_put_dec dark 255 ≡ put_all (decimal 255) dark)
console_put-numbers_example = console_put-numbers dark 255 (omega arith)

-- "%d:%x" of -1 and 255 is "-1:000000ff".
abbrev format : List ℕ
format = b'%' ∷ b'd' ∷ b':' ∷ b'%' ∷ b'x' ∷ []

abbrev made : List ℕ
made = b'-' ∷ b'1' ∷ b':' ∷ b'0' ∷ b'0' ∷ b'0' ∷ b'0' ∷ b'0' ∷ b'0' ∷ b'f' ∷ b'f' ∷ []

expand_test : expand console_meaning none format (word (2 ^ 32 - 1) ∷ word 255 ∷ []) ≡ some made
unfolding expand console_meaning int_arg eight_arg signed_decimal magnitude negative decimal numeral
    dec_char fixed_hex hex_char
expand_test = refl

console_vprintf-prints_example :
    (c' : Console) × (console_vprintf dark format (word (2 ^ 32 - 1) ∷ word 255 ∷ []) ≡ some c')
    × (put_all made dark ≡ some c')
    × IsConsole c'
console_vprintf-prints_example =
    console_vprintf-prints dark format (word (2 ^ 32 - 1) ∷ word 255 ∷ []) made dark-IsConsole
      (omega arith) (omega arith) expand_test
