-- ===== src/Libc.antt =====
-- libc/src/stdio.c, stdlib.c, ctype.c and string.c: printing into buffers, reading of numbers, tokens.
-- `none` is an access outside an array or behind the end of a string, or an operation that C leaves
-- undefined.
mod Tests
pub mod Buffer
pub mod Printf
pub mod Numbers
pub mod Strings
pub mod Meaning
pub mod Bounded
use reta_os.Prelude.{
  ℕ, zero, suc, ◌+◌, ◌-◌, ◌*◌, ◌/◌, ◌%◌, ◌^◌, not, ◌&&◌, ◌||◌, Bool, true, false, Option, some,
  none, List, [], ◌∷◌, ◌++◌, ◌==◌, ltb, leb, if◌then◌else◌, take, set, length,
}
use reta_os.Prelude.Maybe.{◌>>=◌}
use reta_os.Text.Numerals.{dec_char, hex_char, upper_hex_char, backwards, do_digits}
use reta_os.Text.Expand.{Arg, word, text, null, negative, magnitude}
use reta_os.Libc.Buffer.{Out, emit, emit_all}

-- `while (*s && pos + 1 < size) buf[pos++] = *s++;`
unfoldable pub copy_text : (size : ℕ) → List ℕ → Out → Option Out
copy_text size [] o = some o
copy_text size (c ∷ s) o = elim (not (c == 0) && ltb (o.pos + 1) size) [
  | true ↦ (do o ← emit o c; copy_text size s o)
  | false ↦ some o
]

-- `while (t && pos + 1 < size) buf[pos++] = tmp[--t];` for the bytes in the order of their reading
unfoldable pub copy_digits : (size : ℕ) → List ℕ → Out → Option Out
copy_digits size [] o = some o
copy_digits size (c ∷ s) o = elim (ltb (o.pos + 1) size) [
  | true ↦ (do o ← emit o c; copy_digits size s o)
  | false ↦ some o
]

-- "(null)"
abbrev pub null_text : List ℕ
null_text = b'(' ∷ b'n' ∷ b'u' ∷ b'l' ∷ b'l' ∷ b')' ∷ []

-- The cases of `vsnprintf`. Each takes its argument and leaves the others.
unfoldable pub bounded_text : (size : ℕ) → List Arg → Out → Option (Out × List Arg)
bounded_text size (text s ∷ args) o = do o ← copy_text size s o; some (o, args)
bounded_text size (null ∷ args) o = do o ← copy_text size null_text o; some (o, args)
bounded_text size (word n ∷ args) o = none
bounded_text size [] o = none

unfoldable pub bounded_int : (size : ℕ) → List Arg → Out → Option (Out × List Arg)
bounded_int size (word n ∷ args) o = do
  v ← magnitude n
  o ← if negative n && ltb (o.pos + 1) size then emit o b'-' else some o
  o ← copy_digits size (backwards (do_digits 10 dec_char 32 v)) o
  some (o, args)
bounded_int size (text s ∷ args) o = none
bounded_int size (null ∷ args) o = none
bounded_int size [] o = none

unfoldable pub bounded_hex : (size : ℕ) → List Arg → Out → Option (Out × List Arg)
bounded_hex size (word n ∷ args) o = do
  o ← copy_digits size (backwards (do_digits 16 hex_char 32 n)) o
  some (o, args)
bounded_hex size (text s ∷ args) o = none
bounded_hex size (null ∷ args) o = none
bounded_hex size [] o = none

unfoldable pub put_char : List Arg → Out → Option (Out × List Arg)
put_char (word n ∷ args) o = do o ← emit o (n % 2 ^ 8); some (o, args)
put_char (text s ∷ args) o = none
put_char (null ∷ args) o = none
put_char [] o = none

unfoldable pub bounded_unknown : (size d : ℕ) → Out → Option Out
bounded_unknown size d o = do o ← emit o b'%'; if ltb (o.pos + 1) size then emit o d else some o

unfoldable pub bounded_convert : (size d : ℕ) → List Arg → Out → Option (Out × List Arg)
bounded_convert size d args o =
    if d == b's'
    then bounded_text size args o
    else if d == b'd'
    then bounded_int size args o
    else if d == b'x'
    then bounded_hex size args o
    else if d == b'c'
    then put_char args o
    else if d == b'%'
    then (do o ← emit o b'%'; some (o, args))
    else (do o ← bounded_unknown size d o; some (o, args))

-- The loop of `vsnprintf` over the format.
unfoldable pub bounded_loop : (size : ℕ) → List ℕ → List Arg → Out → Option Out
bounded_loop size [] args o = some o
bounded_loop size (f ∷ []) args o =
    if not (f == 0) && ltb (o.pos + 1) size
    then (if f == b'%' then some o else emit o f)
    else some o
bounded_loop size (f ∷ d ∷ format) args o = elim (not (f == 0) && ltb (o.pos + 1) size) [
  | true ↦ elim (f == b'%') [
    | true ↦ elim (d == 0) [
      | true ↦ some o
      | false ↦ (do (o, args) ← bounded_convert size d args o; bounded_loop size format args o)
    ]
    | false ↦ (do o ← emit o f; bounded_loop size (d ∷ format) args o)
  ]
  | false ↦ some o
]

-- `vsnprintf` into a buffer that is not NULL: the buffer afterwards and the result.
unfoldable pub vsnprintf : (buf : List ℕ) (size : ℕ) → List ℕ → List Arg → Option (List ℕ × ℕ)
vsnprintf buf size format args = if size == 0 then some (buf, 0) else (do
  o ← bounded_loop size format args (record { buf = buf; pos = 0 })
  e ← emit o 0
  some (e.buf, o.pos))
