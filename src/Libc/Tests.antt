-- ===== src/Libc/Tests.antt =====
-- Small buffers and texts for libc/src/stdio.c and libc/src/stdlib.c.
use reta_os.Prelude.{
  ℕ, ◌-◌, ◌^◌, ◌≡◌, refl, none, some, List, [], ◌∷◌, ◌++◌, arith, length, replicate, take,
  length-replicate,
}
use reta_os.Text.{strlen, tokens_from}
use reta_os.Text.Numerals.{numeral, dec_char}
use reta_os.Text.Expand.{Arg, word, text, decimal, signed_decimal, magnitude, negative, expand}
use reta_os.Text.Meaning.{int_arg, string_arg}
use reta_os.Libc.{vsnprintf}
use reta_os.Libc.Strings.Tokens.{tokens, strtok-strtok_r}
use reta_os.Libc.Meaning.{text_arg, bounded_meaning, printed_meaning}
use reta_os.Libc.Bounded.Loop.{vsnprintf-cuts}
use reta_os.Libc.Printf.{vprintf}
use reta_os.Libc.Printf.Prints.{vprintf-prints}
use reta_os.Libc.Printf.Overrun.{vprintf-overruns}
use reta_os.Libc.Numbers.{atoi}
use reta_os.Libc.Numbers.RoundTrip.{as_int, atoi-vsnprintf}

-- "%s=%d" of "key" and -20 is "key=-20".
abbrev format : List ℕ
format = b'%' ∷ b's' ∷ b'=' ∷ b'%' ∷ b'd' ∷ []

abbrev args : List Arg
args = text (b'k' ∷ b'e' ∷ b'y' ∷ []) ∷ word (2 ^ 32 - 20) ∷ []

abbrev made : List ℕ
made = b'k' ∷ b'e' ∷ b'y' ∷ b'=' ∷ b'-' ∷ b'2' ∷ b'0' ∷ []

bounded_test : expand bounded_meaning (some []) format args ≡ some made
unfolding expand bounded_meaning text_arg int_arg signed_decimal magnitude negative decimal numeral
    dec_char strlen
bounded_test = refl

printed_test : expand printed_meaning none format args ≡ some made
unfolding expand printed_meaning string_arg int_arg signed_decimal magnitude negative decimal
    numeral dec_char strlen
printed_test = refl

vsnprintf-cuts_example :
    vsnprintf (9 ∷ 9 ∷ 9 ∷ 9 ∷ 9 ∷ 9 ∷ []) 6 format args ≡ some (take 5 made ++ (0 ∷ []), 5)
vsnprintf-cuts_example =
    vsnprintf-cuts (9 ∷ 9 ∷ 9 ∷ 9 ∷ 9 ∷ 9 ∷ []) 5 refl format args made (omega arith) (omega arith)
      bounded_test

abbrev stack : List ℕ
stack = replicate 256 9

length-stack : length stack ≡ 256
length-stack = length-replicate {A = ℕ} 256 9

vprintf-prints_example : vprintf stack format args ≡ some (made, 7)
vprintf-prints_example =
    vprintf-prints stack length-stack format args made (omega arith) (omega arith) printed_test
      (omega arith)

-- 253 times 'a'
abbrev line : List ℕ
line = replicate 253 b'a'

vprintf-overruns_example : vprintf stack (line ++ (b'%' ∷ b'd' ∷ [])) (word 1000 ∷ []) ≡ none
unfolding decimal numeral
vprintf-overruns_example =
    vprintf-overruns stack length-stack line 1000 (omega arith) (omega arith) (omega arith)
      (omega arith)

atoi-vsnprintf_example :
    (printed : List ℕ) × (r : ℕ) × (vsnprintf
        (replicate 12 9)
        12
        (b'%' ∷ b'd' ∷ [])
        (word (2 ^ 32 - 20) ∷ [])
      ≡ some (printed, r))
    × (atoi printed ≡ some (as_int (2 ^ 32 - 20)))
atoi-vsnprintf_example =
    atoi-vsnprintf (replicate 12 9) (2 ^ 32 - 20) (omega arith) (omega arith) (omega arith)

-- "a,,b" and ","
strtok-strtok_r_example :
    tokens 3 (some (b'a' ∷ b',' ∷ b',' ∷ b'b' ∷ [])) none (b',' ∷ [])
    ≡ tokens_from 3 (b'a' ∷ b',' ∷ b',' ∷ b'b' ∷ []) (b',' ∷ [])
strtok-strtok_r_example = strtok-strtok_r 3 (b'a' ∷ b',' ∷ b',' ∷ b'b' ∷ []) (b',' ∷ []) none
