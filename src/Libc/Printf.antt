-- ===== src/Libc/Printf.antt =====
-- `vprintf` of libc/src/stdio.c, which collects its text in an array of 256 bytes on the stack.
pub mod Conversions
pub mod Prints
pub mod Overrun
use reta_os.Prelude.{
  ℕ, zero, suc, ◌+◌, ◌-◌, ◌*◌, ◌/◌, ◌%◌, ◌^◌, not, ◌&&◌, ◌||◌, Bool, true, false, Option, some,
  none, List, [], ◌∷◌, ◌++◌, ◌==◌, ltb, leb, if◌then◌else◌, take, length,
}
use reta_os.Prelude.Maybe.{◌>>=◌}
use reta_os.Text.Numerals.{dec_char, upper_hex_char, backwards, do_digits}
use reta_os.Text.Expand.{Arg, word, text, null, negative, magnitude}
use reta_os.Libc.Buffer.{Out, emit, emit_all}
use reta_os.Libc.{copy_text, put_char}

-- `case 'd'`: the digits go through `num_str`, whose 16 bytes hold those of any `int`.
unfoldable pub put_int : List Arg → Out → Option (Out × List Arg)
put_int (word n ∷ args) o = do
  num ← magnitude n
  o ← if negative n then emit o b'-' else some o
  o ← emit_all (backwards (do_digits 10 dec_char 16 num)) o
  some (o, args)
put_int (text s ∷ args) o = none
put_int (null ∷ args) o = none
put_int [] o = none

-- `case 's'`, where `pos < 255` is `pos + 1 < 256`.
unfoldable pub put_text : List Arg → Out → Option (Out × List Arg)
put_text (text s ∷ args) o = do o ← copy_text 256 s o; some (o, args)
put_text (null ∷ args) o = none
put_text (word n ∷ args) o = none
put_text [] o = none

-- The loop of `case 'x'` over the shifts, of which the next one is `4 * (left - 1)`.
unfoldable pub put_nibbles : (left num : ℕ) → Out → Option Out
put_nibbles zero num o = some o
put_nibbles (suc left) num o = do
  let nibble = num / 2 ^ (4 * left) % 16
  o ←
      if not (nibble == 0) || (left == 0 || ltb left 7 && ltb 2 o.pos)
      then emit o (upper_hex_char nibble)
      else some o
  put_nibbles left num o

unfoldable pub put_hex : List Arg → Out → Option (Out × List Arg)
put_hex (word n ∷ args) o = do
  o ← emit o b'0'
  o ← emit o b'x'
  o ← put_nibbles 8 n o
  some (o, args)
put_hex (text s ∷ args) o = none
put_hex (null ∷ args) o = none
put_hex [] o = none

unfoldable pub convert : ℕ → List Arg → Out → Option (Out × List Arg)
convert d args o =
    if d == b'd' || d == b'i'
    then put_int args o
    else if d == b's'
    then put_text args o
    else if d == b'c'
    then put_char args o
    else if d == b'x' || d == b'X'
    then put_hex args o
    else if d == b'%'
    then (do o ← emit o b'%'; some (o, args))
    else (do o ← emit_all (b'%' ∷ d ∷ []) o; some (o, args))

-- The loop over the format. Behind a `%` at the end of the format it goes on with the byte after the
-- 0 that ends it.
unfoldable pub print_loop : List ℕ → List Arg → Out → Option Out
print_loop [] args o = some o
print_loop (f ∷ []) args o = elim (not (f == 0) && ltb o.pos 255) [
  | true ↦ if f == b'%' then none else emit o f
  | false ↦ some o
]
print_loop (f ∷ d ∷ format) args o = elim (not (f == 0) && ltb o.pos 255) [
  | true ↦ elim (f == b'%') [
    | true ↦ (do (o, args) ← convert d args o; print_loop format args o)
    | false ↦ (do o ← emit o f; print_loop (d ∷ format) args o)
  ]
  | false ↦ some o
]

-- The bytes that are given to `write`, and the result. The array is not initialised.
unfoldable pub vprintf : (buffer : List ℕ) → List ℕ → List Arg → Option (List ℕ × ℕ)
vprintf buffer format args = do
  o ← print_loop format args (record { buf = buffer; pos = 0 })
  e ← emit o 0
  some (take o.pos e.buf, o.pos)
