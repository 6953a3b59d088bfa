-- ===== src/Text/Meaning.antt =====
-- The texts of single conversions, and of formats in their parts.
use reta_os.Prelude.{
  ℕ, ◌%◌, ◌^◌, ◌<◌, ◌≡◌, sym, subst, true, false, Option, some, none, inl, inr, List, [], ◌∷◌, ◌++◌,
  arith, ◌==◌, Option-cases, take,
}
use mathlib.Core.Option.{some-injective, none-ne-some}
use reta_os.Prelude.Maybe.{◌>>=◌}
use reta_os.Text.{strlen}
use reta_os.Text.Numerals.{hex_char, numeral}
use reta_os.Text.Expand.{Arg, word, text, null, signed_decimal, magnitude, negative, expand}

pub magnitude-lt : (n v : ℕ) → n < 2 ^ 32 → magnitude n ≡ some v → v < 2 ^ 32
unfolding magnitude negative
magnitude-lt n v h e = ground (arith, e)

-- `%s` where NULL is not allowed.
unfoldable pub string_arg : List Arg → Option (List ℕ × List Arg)
string_arg (text s ∷ args) = some (take (strlen s) s, args)
string_arg (null ∷ args) = none
string_arg (word n ∷ args) = none
string_arg [] = none

unfoldable pub int_arg : List Arg → Option (List ℕ × List Arg)
int_arg (word n ∷ args) = do t ← signed_decimal n; some (t, args)
int_arg (text s ∷ args) = none
int_arg (null ∷ args) = none
int_arg [] = none

unfoldable pub hex_arg : List Arg → Option (List ℕ × List Arg)
hex_arg (word n ∷ args) = some (numeral 16 hex_char 8 n, args)
hex_arg (text s ∷ args) = none
hex_arg (null ∷ args) = none
hex_arg [] = none

unfoldable pub char_arg : List Arg → Option (List ℕ × List Arg)
char_arg (word n ∷ args) = some ((n % 2 ^ 8) ∷ [], args)
char_arg (text s ∷ args) = none
char_arg (null ∷ args) = none
char_arg [] = none

-- The arguments that are words have 32 bits.
abbrev pub AreWords : List Arg → Type 0
AreWords [] = Unit {0}
AreWords (word n ∷ args) = (n < 2 ^ 32) × AreWords args
AreWords (text s ∷ args) = AreWords args
AreWords (null ∷ args) = AreWords args

pub expand_plain :
    (convert : ℕ → List Arg → Option (List ℕ × List Arg)) (ending : Option (List ℕ)) (f d : ℕ)
    (format : List ℕ) (args : List Arg) (made : List ℕ)
    → (f == b'%') ≡ false
    → expand convert ending (f ∷ d ∷ format) args ≡ some made
    → (rest : List ℕ) × (expand convert ending (d ∷ format) args ≡ some rest) × (made ≡ f ∷ rest)
unfolding expand
expand_plain convert ending f d format args made p e =
    let later = expand convert ending (d ∷ format) args in
    elim (Option-cases later) [
      | inl g ↦ absurd (none-ne-some made (rw (expand, p, g) at e))
      | inr (rest, g) ↦ (rest, g, some-injective _ _ (sym (rw (expand, p, g) at e)))
    ]

pub expand_convert :
    (convert : ℕ → List Arg → Option (List ℕ × List Arg)) (ending : Option (List ℕ)) (f d : ℕ)
    (format : List ℕ) (args : List Arg) (made : List ℕ)
    → (f == b'%') ≡ true
    → expand convert ending (f ∷ d ∷ format) args ≡ some made
    → (r : List ℕ × List Arg) × (convert d args ≡ some r)
      × (rest : List ℕ) × (expand convert ending format r.1 ≡ some rest)
      × (made ≡ r.0 ++ rest)
unfolding expand
expand_convert convert ending f d format args made p e = elim (Option-cases (convert d args)) [
  | inl g ↦ absurd (none-ne-some made (rw (expand, p, g) at e))
  | inr (r, g) ↦ elim (Option-cases (expand convert ending format r.1)) [
    | inl h ↦ absurd (none-ne-some made (rw h at (rw (expand, p, g) at e)))
    | inr (rest, h) ↦ (r, g, rest, h, some-injective _ _ (sym (rw h at (rw (expand, p, g) at e))))
  ]
]

-- The arguments that a conversion leaves are such again.
abbrev pub HasWords : Option (List ℕ × List Arg) → Type 0
HasWords none = Unit {0}
HasWords (some r) = AreWords r.1

pub HasWords-some :
    (o : Option (List ℕ × List Arg)) (r : List ℕ × List Arg)
    → HasWords o
    → o ≡ some r
    → AreWords r.1
HasWords-some o r h e = subst HasWords e h

pub int_arg-HasWords : (args : List Arg) → AreWords args → HasWords (int_arg args)
unfolding int_arg
int_arg-HasWords [] words = tt
int_arg-HasWords (text s ∷ args) words = tt
int_arg-HasWords (null ∷ args) words = tt
int_arg-HasWords (word n ∷ args) (small, words) = elim (Option-cases (signed_decimal n)) [
  | inl e ↦ rw e tt
  | inr (t, e) ↦ rw e words
]

pub hex_arg-HasWords : (args : List Arg) → AreWords args → HasWords (hex_arg args)
unfolding hex_arg
hex_arg-HasWords [] words = tt
hex_arg-HasWords (text s ∷ args) words = tt
hex_arg-HasWords (null ∷ args) words = tt
hex_arg-HasWords (word n ∷ args) (small, words) = words

pub char_arg-HasWords : (args : List Arg) → AreWords args → HasWords (char_arg args)
unfolding char_arg
char_arg-HasWords [] words = tt
char_arg-HasWords (text s ∷ args) words = tt
char_arg-HasWords (null ∷ args) words = tt
char_arg-HasWords (word n ∷ args) (small, words) = words

pub string_arg-HasWords : (args : List Arg) → AreWords args → HasWords (string_arg args)
unfolding string_arg
string_arg-HasWords [] words = tt
string_arg-HasWords (text s ∷ args) words = words
string_arg-HasWords (null ∷ args) words = tt
string_arg-HasWords (word n ∷ args) words = tt
