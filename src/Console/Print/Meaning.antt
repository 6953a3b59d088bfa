-- ===== src/Console/Print/Meaning.antt =====
-- The texts that the conversions of `console_vprintf` in kernel/console_utils.c stand for.
use reta_os.Prelude.{if_each, ℕ, ◌||◌, Option, some, none, List, [], ◌∷◌, ◌==◌, if◌then◌else◌}
use reta_os.Text.Numerals.{hex_char, fixed_hex}
use reta_os.Text.Expand.{Arg, word, text, null, decimal}
use reta_os.Text.Meaning.{
  string_arg, int_arg, char_arg, AreWords, HasWords, int_arg-HasWords, char_arg-HasWords,
  string_arg-HasWords,
}

unfoldable pub unsigned_arg : List Arg → Option (List ℕ × List Arg)
unsigned_arg (word n ∷ args) = some (decimal n, args)
unsigned_arg (text s ∷ args) = none
unsigned_arg (null ∷ args) = none
unsigned_arg [] = none

unfoldable pub eight_arg : List Arg → Option (List ℕ × List Arg)
eight_arg (word n ∷ args) = some (fixed_hex hex_char 8 n, args)
eight_arg (text s ∷ args) = none
eight_arg (null ∷ args) = none
eight_arg [] = none

-- The text of each conversion.
unfoldable pub console_meaning : ℕ → List Arg → Option (List ℕ × List Arg)
console_meaning d args =
    if d == b'd' || d == b'i'
    then int_arg args
    else if d == b'u'
    then unsigned_arg args
    else if d == b'x' || d == b'X'
    then eight_arg args
    else if d == b'c'
    then char_arg args
    else if d == b's'
    then string_arg args
    else if d == b'%'
    then some (b'%' ∷ [], args)
    else some (b'%' ∷ d ∷ [], args)

unsigned_arg-HasWords : (args : List Arg) → AreWords args → HasWords (unsigned_arg args)
unfolding unsigned_arg
unsigned_arg-HasWords [] words = tt
unsigned_arg-HasWords (text s ∷ args) words = tt
unsigned_arg-HasWords (null ∷ args) words = tt
unsigned_arg-HasWords (word n ∷ args) (small, words) = words

eight_arg-HasWords : (args : List Arg) → AreWords args → HasWords (eight_arg args)
unfolding eight_arg
eight_arg-HasWords [] words = tt
eight_arg-HasWords (text s ∷ args) words = tt
eight_arg-HasWords (null ∷ args) words = tt
eight_arg-HasWords (word n ∷ args) (small, words) = words

pub console_meaning-HasWords :
    (d : ℕ) (args : List Arg) → AreWords args → HasWords (console_meaning d args)
unfolding console_meaning
console_meaning-HasWords d args words =
    if_each HasWords (d == b'd' || d == b'i') (int_arg-HasWords args words) (
      if_each HasWords (d == b'u') (unsigned_arg-HasWords args words) (
        if_each HasWords (d == b'x' || d == b'X') (eight_arg-HasWords args words) (
          if_each HasWords (d == b'c') (char_arg-HasWords args words) (
            if_each HasWords (d == b's') (string_arg-HasWords args words)
              (if_each HasWords (d == b'%') words words)))))
