-- ===== src/Text/Expand.antt =====
-- Format strings and their arguments, for the three printing functions: `vprintf` and `vsnprintf` of
-- libc/src/stdio.c and `console_vprintf` of kernel/console_utils.c.
use reta_os.Prelude.{
  ℕ, ◌-◌, ◌^◌, Bool, true, false, Option, some, none, List, [], ◌∷◌, ◌++◌, ◌==◌, leb, if◌then◌else◌,
}
use reta_os.Prelude.Maybe.{◌>>=◌}
use reta_os.Text.Numerals.{numeral, dec_char}

-- What `va_arg` finds: a word of 32 bits, a string, or NULL.
pub data Arg : Type 0 where
  word : ℕ → Arg
  text : List ℕ → Arg
  null : Arg

-- A word as an `int` has this sign. The negation of the least `int` has no value in C.
unfoldable pub negative : ℕ → Bool
negative n = leb (2 ^ 31) n

unfoldable pub magnitude : ℕ → Option ℕ
magnitude n = if negative n then (if n == 2 ^ 31 then none else some (2 ^ 32 - n)) else some n

-- `n < 2^32` in decimal digits, and a word as an `int`.
unfoldable pub decimal : ℕ → List ℕ
decimal n = numeral 10 dec_char 10 n

unfoldable pub signed_decimal : ℕ → Option (List ℕ)
signed_decimal n = do m ← magnitude n; some (if negative n then b'-' ∷ decimal m else decimal m)

-- The text that a format makes of its arguments, where `convert` is what stands for `%` and the
-- character behind it, and the rest of the arguments. `ending` is what a `%` at the end of the
-- format stands for.
unfoldable pub expand :
    (convert : ℕ → List Arg → Option (List ℕ × List Arg)) (ending : Option (List ℕ))
    → List ℕ
    → List Arg
    → Option (List ℕ)
expand convert ending [] args = some []
expand convert ending (f ∷ []) args = if f == b'%' then ending else some (f ∷ [])
expand convert ending (f ∷ d ∷ format) args = elim (f == b'%') [
  | true ↦ (do
    (t, args) ← convert d args
    rest ← expand convert ending format args
    some (t ++ rest))
  | false ↦ (do rest ← expand convert ending (d ∷ format) args; some (f ∷ rest))
]
