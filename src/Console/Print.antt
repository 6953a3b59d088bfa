-- ===== src/Console/Print.antt =====
-- Numbers and formats on the screen: `console_put_hex` and `console_put_dec` of kernel/console.c, and
-- kernel/console_utils.c.
pub mod Digits
pub mod Meaning
pub mod Format
use reta_os.Prelude.{
  ℕ, zero, suc, ◌+◌, ◌-◌, ◌*◌, ◌/◌, ◌%◌, ◌^◌, ◌||◌, true, false, Option, some, none, List, [], ◌∷◌,
  ◌++◌, ◌==◌, if◌then◌else◌, length, take, replicate,
}
use reta_os.Prelude.Maybe.{◌>>=◌}
use reta_os.Text.Numerals.{dec_char, hex_char, upper_hex_char, backwards, while_digits, do_digits}
use reta_os.Text.Expand.{Arg, word, text, null, negative, magnitude}
use reta_os.Console.{Console, console_putc, console_puts}

-- `while (i > 0) console_putc(buffer[--i]);` for the bytes in the order of their reading
unfoldable pub put_all : List ℕ → Console → Option Console
put_all [] c = some c
put_all (ch ∷ s) c = do c ← console_putc c ch; put_all s c

-- The loop of `console_put_hex`, whose next `i` is `left - 1`.
unfoldable pub put_hex_digits : (left n : ℕ) → Console → Option Console
put_hex_digits zero n c = some c
put_hex_digits (suc left) n c = do
  c ← console_putc c (upper_hex_char (n / 2 ^ (4 * left) % 16))
  put_hex_digits left n c

unfoldable pub console_put_hex : Console → ℕ → Option Console
console_put_hex c n = put_hex_digits 8 n c

unfoldable pub console_put_dec : Console → ℕ → Option Console
console_put_dec c n =
    if n == 0 then console_putc c b'0' else put_all (backwards (while_digits 10 dec_char 11 n)) c

-- The cases of `console_vprintf`. Each takes its argument and leaves the others.
unfoldable pub put_int : Console → List Arg → Option (Console × List Arg)
put_int c (word n ∷ args) = do
  num ← magnitude n
  c ← if negative n then console_putc c b'-' else some c
  c ← put_all (backwards (do_digits 10 dec_char 30 num)) c
  some (c, args)
put_int c (text s ∷ args) = none
put_int c (null ∷ args) = none
put_int c [] = none

unfoldable pub put_unsigned : Console → List Arg → Option (Console × List Arg)
put_unsigned c (word n ∷ args) = do
  c ← put_all (backwards (do_digits 10 dec_char 30 n)) c
  some (c, args)
put_unsigned c (text s ∷ args) = none
put_unsigned c (null ∷ args) = none
put_unsigned c [] = none

-- The digits, the last one first, with zeros behind them up to eight, and of these the first eight.
unfoldable pub eight_digits : ℕ → List ℕ
eight_digits n =
    let digits = do_digits 16 hex_char 30 n in take 8 (digits ++ replicate (8 - length digits) b'0')

unfoldable pub put_hex : Console → List Arg → Option (Console × List Arg)
put_hex c (word n ∷ args) = do c ← put_all (backwards (eight_digits n)) c; some (c, args)
put_hex c (text s ∷ args) = none
put_hex c (null ∷ args) = none
put_hex c [] = none

unfoldable pub put_char : Console → List Arg → Option (Console × List Arg)
put_char c (word n ∷ args) = do c ← console_putc c (n % 2 ^ 8); some (c, args)
put_char c (text s ∷ args) = none
put_char c (null ∷ args) = none
put_char c [] = none

unfoldable pub put_string : Console → List Arg → Option (Console × List Arg)
put_string c (text s ∷ args) = do c ← console_puts c s; some (c, args)
put_string c (null ∷ args) = none
put_string c (word n ∷ args) = none
put_string c [] = none

unfoldable pub convert : Console → ℕ → List Arg → Option (Console × List Arg)
convert c d args =
    if d == b'd' || d == b'i'
    then put_int c args
    else if d == b'u'
    then put_unsigned c args
    else if d == b'x' || d == b'X'
    then put_hex c args
    else if d == b'c'
    then put_char c args
    else if d == b's'
    then put_string c args
    else if d == b'%'
    then (do c ← console_putc c b'%'; some (c, args))
    else (do c ← put_all (b'%' ∷ d ∷ []) c; some (c, args))

-- Behind a `%` at the end of the format the loop goes on with the byte after the 0 that ends it.
unfoldable pub console_vprintf : Console → List ℕ → List Arg → Option Console
console_vprintf c [] args = some c
console_vprintf c (f ∷ []) args = elim (f == 0) [
  | true ↦ some c
  | false ↦ if f == b'%' then none else console_putc c f
]
console_vprintf c (f ∷ d ∷ format) args = elim (f == 0) [
  | true ↦ some c
  | false ↦ elim (f == b'%') [
    | true ↦ (do (c, args) ← convert c d args; console_vprintf c format args)
    | false ↦ (do c ← console_putc c f; console_vprintf c (d ∷ format) args)
  ]
]
