-- ===== src/Console/Print/Format.antt =====
-- `console_vprintf` of kernel/console_utils.c against the text that its format and arguments stand
-- for.
use reta_os.Prelude.{
  if_both, ℕ, ◌%◌, ◌^◌, ◌≡◌, refl, ap, sym, ◌∙◌, fun_ext, ◌||◌, false, inl, inr, Bool-cases,
  Option-cases, Option, some, none, List, [], ◌∷◌, ◌++◌, ◌==◌, arith, take,
}
use mathlib.Core.Option.{some-injective, none-ne-some}
use reta_os.Prelude.Maybe.{◌>>=◌}
use reta_os.Text.{strlen}
use reta_os.Text.Compare.{IsText}
use reta_os.Text.Expand.{Arg, word, text, null, negative, magnitude, signed_decimal, expand}
use reta_os.Text.Meaning.{
  HasWords-some, magnitude-lt, AreWords, int_arg, char_arg, string_arg, expand_plain,
  expand_convert,
}
use reta_os.Console.{Console, console_putc, console_puts}
use reta_os.Console.Screen.{IsConsole, console_putc-IsConsole}
use reta_os.Console.Print.{
  put_all, put_int, put_unsigned, put_hex, put_char, put_string, convert, console_vprintf,
}
use reta_os.Console.Print.Digits.{digits_30, backwards-eight_digits, put_all-one}
use reta_os.Console.Print.Meaning.{
  unsigned_arg, eight_arg, console_meaning, console_meaning-HasWords,
}

pub put_all-append :
    (s t : List ℕ) (c : Console) → put_all (s ++ t) c ≡ (do c ← put_all s c; put_all t c)
unfolding put_all
put_all-append [] t c = refl
put_all-append (ch ∷ s) t c = elim (Option-cases (console_putc c ch)) [
  | inl e ↦ rw e refl
  | inr (next, e) ↦ rw e (put_all-append s t next)
]

-- `console_puts` prints up to the end of the string.
console_puts-all : (s : List ℕ) (c : Console) → console_puts c s ≡ put_all (take (strlen s) s) c
unfolding console_puts strlen put_all
console_puts-all [] c = refl
console_puts-all (ch ∷ s) c = elim (Bool-cases (ch == 0)) [
  | inl e ↦ rw e refl
  | inr e ↦ elim (Option-cases (console_putc c ch)) [
    | inl g ↦ rw (e, g) refl
    | inr (next, g) ↦ rw (e, g) (console_puts-all s next)
  ]
]

pub put_all-IsConsole :
    (s : List ℕ) (c : Console)
    → IsConsole c
    → (c' : Console) × (put_all s c ≡ some c') × IsConsole c'
unfolding put_all
put_all-IsConsole [] c h = (c, refl, h)
put_all-IsConsole (ch ∷ s) c h =
    let (next, put, good) = console_putc-IsConsole c ch h in
    let (last, rest, end) = put_all-IsConsole s next good in (last, rw put rest, end)

-- Printing the text of a conversion.
after : Console → List ℕ × List Arg → Option (Console × List Arg)
after c r = do c ← put_all r.0 c; some (c, r.1)

put_int-after :
    (c : Console) (args : List Arg) → AreWords args → put_int c args ≡ (int_arg args >>= after c)
unfolding put_int int_arg signed_decimal after put_all
put_int-after c [] words = refl
put_int-after c (text s ∷ args) words = refl
put_int-after c (null ∷ args) words = refl
put_int-after c (word n ∷ args) (small, words) = elim (Option-cases (magnitude n)) [
  | inl e ↦ rw e refl
  | inr (v, e) ↦
      let digits = digits_30 v (magnitude-lt n v small e) in
      elim (Bool-cases (negative n)) [
        | inr p ↦ rw (e, p, digits) refl
        | inl p ↦ elim (Option-cases (console_putc c b'-')) [
          | inl g ↦ rw (e, p, g) refl
          | inr (next, g) ↦ rw (e, p, g, digits) refl
        ]
      ]
]

put_unsigned-after :
    (c : Console) (args : List Arg)
    → AreWords args
    → put_unsigned c args ≡ (unsigned_arg args >>= after c)
unfolding put_unsigned unsigned_arg after
put_unsigned-after c [] words = refl
put_unsigned-after c (text s ∷ args) words = refl
put_unsigned-after c (null ∷ args) words = refl
put_unsigned-after c (word n ∷ args) (small, words) = rw (digits_30 n small) refl

put_hex-after : (c : Console) (args : List Arg) → put_hex c args ≡ (eight_arg args >>= after c)
unfolding put_hex eight_arg after
put_hex-after c [] = refl
put_hex-after c (text s ∷ args) = refl
put_hex-after c (null ∷ args) = refl
put_hex-after c (word n ∷ args) = rw (backwards-eight_digits n) refl

put_char-after : (c : Console) (args : List Arg) → put_char c args ≡ (char_arg args >>= after c)
unfolding put_char char_arg after
put_char-after c [] = refl
put_char-after c (text s ∷ args) = refl
put_char-after c (null ∷ args) = refl
put_char-after c (word n ∷ args) = rw (put_all-one (n % 2 ^ 8) c) refl

put_string-after :
    (c : Console) (args : List Arg) → put_string c args ≡ (string_arg args >>= after c)
unfolding put_string string_arg after
put_string-after c [] = refl
put_string-after c (text s ∷ args) = rw (console_puts-all s c) refl
put_string-after c (null ∷ args) = refl
put_string-after c (word n ∷ args) = refl

convert-after :
    (c : Console) (d : ℕ) (args : List Arg)
    → AreWords args
    → convert c d args ≡ (console_meaning d args >>= after c)
unfolding convert console_meaning
convert-after c d args words =
    let P = λ (means : Option (List ℕ × List Arg)) (does : Option (Console × List Arg)).
      does ≡ (means >>= after c) in
    if_both P (d == b'd' || d == b'i') (put_int-after c args words) (
      if_both P (d == b'u') (put_unsigned-after c args words) (
        if_both P (d == b'x' || d == b'X') (put_hex-after c args) (
          if_both P (d == b'c') (put_char-after c args) (
            if_both P (d == b's') (put_string-after c args) (
              if_both P (d == b'%') (unfold after in rw (put_all-one b'%' c) refl)
                (unfold after in refl))))))

after_text :
    (c : Console) (format : List ℕ) (r : List ℕ × List Arg) (rest : List ℕ)
    → ((c : Console) → console_vprintf c format r.1 ≡ put_all rest c)
    → (after c r >>= λ (s : Console × List Arg). console_vprintf s.0 format s.1)
      ≡ (put_all r.0 c >>= put_all rest)
unfolding after
after_text c format r rest later = elim (Option-cases (put_all r.0 c)) [
  | inl e ↦ rw e refl
  | inr (next, e) ↦ rw e (later next)
]

console_vprintf-plain :
    (c : Console) (f d : ℕ) (format : List ℕ) (args : List Arg)
    → (f == 0) ≡ false
    → (f == b'%') ≡ false
    → console_vprintf c (f ∷ d ∷ format) args
      ≡ (do c ← console_putc c f; console_vprintf c (d ∷ format) args)
unfolding console_vprintf
console_vprintf-plain c f d format args going p = rw (console_vprintf, going, p) refl

plain_text :
    (c : Console) (f d : ℕ) (format : List ℕ) (args : List Arg) (rest : List ℕ)
    → (f == 0) ≡ false
    → (f == b'%') ≡ false
    → ((c : Console) → console_vprintf c (d ∷ format) args ≡ put_all rest c)
    → console_vprintf c (f ∷ d ∷ format) args ≡ put_all (f ∷ rest) c
unfolding put_all
plain_text c f d format args rest going p later =
    console_vprintf-plain c f d format args going p
    ∙ ap (λ (k : Console → Option Console). console_putc c f >>= k) (fun_ext later)

console_vprintf-expand :
    (format : List ℕ) (args : List Arg) (c : Console) (made : List ℕ)
    → IsText format
    → AreWords args
    → expand console_meaning none format args ≡ some made
    → console_vprintf c format args ≡ put_all made c
unfolding console_vprintf expand
console_vprintf-expand [] args c made good words e =
    rw (← some-injective _ _ e) (unfold put_all in refl)
console_vprintf-expand (f ∷ []) args c made (nul, good) words e =
    let going : (f == 0) ≡ false = ground (arith, nul) in
    elim (Bool-cases (f == b'%')) [
      | inl p ↦ absurd (none-ne-some made (rw p at e))
      | inr p ↦
          rw (console_vprintf, going, p, ← some-injective _ _ (rw p at e)) (sym (put_all-one f c))
    ]
console_vprintf-expand (f ∷ d ∷ format) args c made (nul, (nul2, good)) words e =
    let going : (f == 0) ≡ false = ground (arith, nul) in
    elim (Bool-cases (f == b'%')) [
      | inr p ↦
          let (rest, found, whole) = expand_plain console_meaning none f d format args made p e in
          rw whole (
            plain_text c f d format args rest going p
              (λ c. console_vprintf-expand (d ∷ format) args c rest (nul2, good) words found))
      | inl p ↦
          let (r, means, rest, found, whole) =
            expand_convert console_meaning none f d format args made p e in
          let later = λ (c : Console).
            console_vprintf-expand format r.1 c rest good
              (HasWords-some _ r (console_meaning-HasWords d args words) means) found in
          rw
            (
              console_vprintf,
              going,
              p,
              convert-after c d args words,
              means,
              whole,
              put_all-append r.0 rest c,
            )
            (after_text c format r rest later)
    ]

-- Where the arguments, with words of 32 bits, fit the conversions of a format that has no 0
-- before its end, and the text that they make is defined, `console_vprintf` prints that text byte
-- by byte through `console_putc`. On a screen with its 2000 cells and the cursor inside it the
-- text is printed to its end, and such a screen is left.
pub console_vprintf-prints :
    (c : Console) (format : List ℕ) (args : List Arg) (made : List ℕ)
    → IsConsole c
    → IsText format
    → AreWords args
    → expand console_meaning none format args ≡ some made
    → (c' : Console) × (console_vprintf c format args ≡ some c')
      × (put_all made c ≡ some c')
      × IsConsole c'
console_vprintf-prints c format args made h good words e =
    let (c', printed, end) = put_all-IsConsole made c h in
    (c', console_vprintf-expand format args c made good words e ∙ printed, printed, end)
