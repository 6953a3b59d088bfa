-- ===== src/Text/Numerals.antt =====
-- Numbers in digits, as the printing loops of kernel/console.c, kernel/console_utils.c and
-- libc/src/stdio.c make them: the last digit first, into an array that is printed from its end.
use reta_os.Prelude.{
  ℕ, zero, suc, ◌+◌, ◌-◌, ◌*◌, ◌/◌, ◌%◌, ◌^◌, ◌≤◌, ◌<◌, ◌≡◌, refl, sym, ap, List, [], ◌∷◌, ◌++◌,
  arith, ltb, ◌==◌, inl, inr, Bool-cases, if◌then◌else◌, length, length-append,
}
use native.Mathlib.Nat.{div-le_self, div-div-eq-div-mul, pow-suc}

-- '0' + d, and the digits above 9 as letters
unfoldable pub dec_char : ℕ → ℕ
dec_char d = b'0' + d

unfoldable pub hex_char : ℕ → ℕ
hex_char d = if ltb d 10 then b'0' + d else b'a' + (d - 10)

unfoldable pub upper_hex_char : ℕ → ℕ
upper_hex_char d = if ltb d 10 then b'0' + d else b'A' + (d - 10)

-- The order in which `while (i > 0) … buf[--i]` reads the array.
unfoldable pub backwards : List ℕ → List ℕ
backwards [] = []
backwards (d ∷ ds) = backwards ds ++ (d ∷ [])

-- `while (n && i < sizeof(buf)) { buf[i++] = … n % base …; n /= base; }`, with the room that is left
-- in the array.
unfoldable pub while_digits : (base : ℕ) (char : ℕ → ℕ) (room n : ℕ) → List ℕ
while_digits base char zero n = []
while_digits base char (suc room) n =
    let rest = while_digits base char room (n / base) in
    if n == 0 then [] else char (n % base) ∷ rest

-- `do { … } while (n && i < sizeof(buf))`
unfoldable pub do_digits : (base : ℕ) (char : ℕ → ℕ) (room n : ℕ) → List ℕ
do_digits base char room n = char (n % base) ∷ while_digits base char (room - 1) (n / base)

-- `n` in digits, the first one first, with no zero in front. The fuel bounds the number of digits.
unfoldable pub numeral : (base : ℕ) (char : ℕ → ℕ) (fuel n : ℕ) → List ℕ
numeral base char zero n = []
numeral base char (suc fuel) n =
    let front = numeral base char fuel (n / base) in
    if n / base == 0 then char (n % base) ∷ [] else front ++ (char (n % base) ∷ [])

-- `n` has at most so many digits.
abbrev pub Fits : (base digits n : ℕ) → Type 0
Fits base zero n = n ≡ 0
Fits base (suc digits) n = Fits base digits (n / base)

module _ (base : ℕ) (char : ℕ → ℕ) where
  backwards-while_digits :
      (room n : ℕ)
      → Fits base room (n / base)
      → backwards (char (n % base) ∷ while_digits base char room (n / base))
        ≡ numeral base char (suc room) n
  unfolding backwards while_digits numeral
  backwards-while_digits zero n fits = rw fits refl
  backwards-while_digits (suc room) n fits = elim (Bool-cases (n / base == 0)) [
    | inl e ↦ rw e refl
    | inr e ↦ rw e (
        ap (λ (l : List ℕ). l ++ (char (n % base) ∷ []))
          (backwards-while_digits room (n / base) fits))
  ]

  -- A do-while loop with enough room leaves the digits of its number.
  pub backwards-do_digits :
      (room n : ℕ)
      → Fits base (suc room) n
      → backwards (do_digits base char (suc room) n) ≡ numeral base char (suc room) n
  unfolding do_digits
  backwards-do_digits room n fits =
      let same : suc room - 1 ≡ room = omega arith in rw same (backwards-while_digits room n fits)

  -- More fuel than digits changes nothing.
  pub numeral_enough :
      (less more n : ℕ)
      → Fits base (suc less) n
      → Fits base (suc more) n
      → numeral base char (suc less) n ≡ numeral base char (suc more) n
  unfolding numeral
  numeral_enough zero more n f g = rw f refl
  numeral_enough (suc less) zero n f g = rw g refl
  numeral_enough (suc less) (suc more) n f g =
      let front = numeral_enough less more (n / base) f g in rw front refl

Fits-more : (base digits n : ℕ) → Fits base digits n → Fits base (suc digits) n
Fits-more base zero n fits =
    let nothing : 0 / base ≡ 0 = omega (arith, div-le_self 0 base) in rw fits nothing
Fits-more base (suc digits) n fits = Fits-more base digits (n / base) fits

pub Fits-add : (base digits more n : ℕ) → Fits base digits n → Fits base (more + digits) n
Fits-add base digits zero n fits = let same : 0 + digits ≡ digits = omega arith in rw same fits
Fits-add base digits (suc more) n fits =
    let same : suc more + digits ≡ suc (more + digits) = omega arith in
    rw same (Fits-more base (more + digits) n (Fits-add base digits more n fits))

-- A word has at most ten decimal digits and eight hexadecimal ones.
pub Fits-decimal : (n : ℕ) → n < 2 ^ 32 → Fits 10 10 n
Fits-decimal n h = omega arith

pub Fits-hex : (n : ℕ) → n < 2 ^ 32 → Fits 16 8 n
Fits-hex n h = omega arith

-- `n` in so many hexadecimal digits, with zeros in front.
unfoldable pub fixed_hex : (char : ℕ → ℕ) (digits n : ℕ) → List ℕ
fixed_hex char zero n = []
fixed_hex char (suc digits) n = fixed_hex char digits (n / 16) ++ (char (n % 16) ∷ [])

four_more : (k : ℕ) → 2 ^ (4 * suc k) ≡ 16 * 2 ^ (4 * k)
four_more k =
    let more : 4 * suc k ≡ suc (suc (suc (suc (4 * k)))) = omega arith in
    rw
      (
        more,
        pow-suc 2 (suc (suc (suc (4 * k)))),
        pow-suc 2 (suc (suc (4 * k))),
        pow-suc 2 (suc (4 * k)),
        pow-suc 2 (4 * k),
      )
      (omega arith)

-- The first of them is what `(n >> 4 * digits) & 0xF` takes.
pub fixed_hex-first :
    (char : ℕ → ℕ) (digits n : ℕ)
    → fixed_hex char (suc digits) n ≡ char (n / 2 ^ (4 * digits) % 16) ∷ fixed_hex char digits n
unfolding fixed_hex
fixed_hex-first char zero n = let same : n / 2 ^ (4 * 0) ≡ n = omega arith in rw same refl
fixed_hex-first char (suc digits) n =
    let deep : n / 16 / 2 ^ (4 * digits) ≡ n / 2 ^ (4 * suc digits) =
      sym (rw (four_more digits) (sym (div-div-eq-div-mul n 16 (2 ^ (4 * digits))))) in
    rw (fixed_hex-first char digits (n / 16), deep) refl

pub length-fixed_hex : (char : ℕ → ℕ) (digits n : ℕ) → length (fixed_hex char digits n) ≡ digits
unfolding fixed_hex
length-fixed_hex char zero n = refl
length-fixed_hex char (suc digits) n = omega (
  arith,
  length-append (fixed_hex char digits (n / 16)) (char (n % 16) ∷ []),
  length-fixed_hex char digits (n / 16),
)

pub length-numeral :
    (base : ℕ) (char : ℕ → ℕ) (fuel n : ℕ) → length (numeral base char fuel n) ≤ fuel
unfolding numeral
length-numeral base char zero n = omega arith
length-numeral base char (suc fuel) n = elim (Bool-cases (n / base == 0)) [
  | inl e ↦ rw e (omega arith)
  | inr e ↦
      let front = numeral base char fuel (n / base) in
      rw e (
        omega (
          arith,
          length-append front (char (n % base) ∷ []),
          length-numeral base char fuel (n / base),
        ))
]
