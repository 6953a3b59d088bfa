-- ===== src/Libc/Meaning.antt =====
-- The texts that the conversions of `vsnprintf` and `vprintf` in libc/src/stdio.c stand for.
use reta_os.Prelude.{if_each, ◌||◌, ℕ, Option, some, none, List, [], ◌∷◌, ◌==◌, if◌then◌else◌, take}
use reta_os.Text.{strlen}
use reta_os.Text.Expand.{Arg, word, text, null}
use reta_os.Libc.{null_text}
use reta_os.Text.Meaning.{
  string_arg, int_arg, hex_arg, char_arg, AreWords, HasWords, int_arg-HasWords, hex_arg-HasWords,
  char_arg-HasWords, string_arg-HasWords,
}

-- The text of each conversion.
unfoldable pub text_arg : List Arg → Option (List ℕ × List Arg)
text_arg (text s ∷ args) = some (take (strlen s) s, args)
text_arg (null ∷ args) = some (null_text, args)
text_arg (word n ∷ args) = none
text_arg [] = none

unfoldable pub bounded_meaning : ℕ → List Arg → Option (List ℕ × List Arg)
bounded_meaning d args =
    if d == b's'
    then text_arg args
    else if d == b'd'
    then int_arg args
    else if d == b'x'
    then hex_arg args
    else if d == b'c'
    then char_arg args
    else if d == b'%'
    then some (b'%' ∷ [], args)
    else some (b'%' ∷ d ∷ [], args)

-- The conversions of `vprintf` but `%x`, whose text depends on what stands before it.
unfoldable pub printed_meaning : ℕ → List Arg → Option (List ℕ × List Arg)
printed_meaning d args =
    if d == b'd' || d == b'i'
    then int_arg args
    else if d == b's'
    then string_arg args
    else if d == b'c'
    then char_arg args
    else if d == b'x' || d == b'X'
    then none
    else if d == b'%'
    then some (b'%' ∷ [], args)
    else some (b'%' ∷ d ∷ [], args)

text_arg-HasWords : (args : List Arg) → AreWords args → HasWords (text_arg args)
unfolding text_arg
text_arg-HasWords [] words = tt
text_arg-HasWords (text s ∷ args) words = words
text_arg-HasWords (null ∷ args) words = words
text_arg-HasWords (word n ∷ args) words = tt

pub bounded_meaning-HasWords :
    (d : ℕ) (args : List Arg) → AreWords args → HasWords (bounded_meaning d args)
unfolding bounded_meaning
bounded_meaning-HasWords d args words =
    if_each HasWords (d == b's') (text_arg-HasWords args words) (
      if_each HasWords (d == b'd') (int_arg-HasWords args words) (
        if_each HasWords (d == b'x') (hex_arg-HasWords args words) (
          if_each HasWords (d == b'c') (char_arg-HasWords args words)
            (if_each HasWords (d == b'%') words words))))

pub printed_meaning-HasWords :
    (d : ℕ) (args : List Arg) → AreWords args → HasWords (printed_meaning d args)
unfolding printed_meaning
printed_meaning-HasWords d args words =
    if_each HasWords (d == b'd' || d == b'i') (int_arg-HasWords args words) (
      if_each HasWords (d == b's') (string_arg-HasWords args words) (
        if_each HasWords (d == b'c') (char_arg-HasWords args words) (
          if_each HasWords (d == b'x' || d == b'X') tt (if_each HasWords (d == b'%') words words))))
