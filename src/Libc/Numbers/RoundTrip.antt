-- ===== src/Libc/Numbers/RoundTrip.antt =====
-- Reading numbers back, `atoi` of libc/src/stdlib.c, that `vsnprintf` of libc/src/stdio.c has
-- printed.
use reta_os.Prelude.{
  ℕ, zero, suc, ◌+◌, ◌-◌, ◌*◌, ◌%◌, ◌/◌, ◌^◌, ◌≤◌, ◌<◌, ◌≡◌, ◌≢◌, refl, ◌∙◌, ◌&&◌, true, false,
  some, inl, inr, List, [], ◌∷◌, ◌++◌, arith, ltb, leb, ◌==◌, if◌then◌else◌, Bool-cases, length,
  take, drop, take_all, append_assoc, append-nil,
}
use mathlib.Core.Option.{some-injective, none-ne-some}
use reta_os.Prelude.Maybe.{◌>>=◌}
use reta_os.Prelude.Int.{ℤ, pos, minus}
use reta_os.Text.Numerals.{dec_char, numeral, length-numeral, Fits, Fits-decimal}
use reta_os.Text.Expand.{word, negative, magnitude, decimal, signed_decimal, expand}
use reta_os.Libc.{vsnprintf}
use reta_os.Text.Meaning.{int_arg}
use reta_os.Libc.Meaning.{bounded_meaning}
use reta_os.Libc.Bounded.Loop.{vsnprintf-cuts}
use reta_os.Libc.Numbers.{isdigit, skip_spaces, read_digits, read_signed, atoi}

-- A word of 32 bits as an `int`.
unfoldable pub as_int : ℕ → ℤ
as_int n = if negative n then minus (2 ^ 32 - n) else pos n

read_digits-digit :
    (d res : ℕ) (rest : List ℕ)
    → d < 10
    → res * 10 + d < 2 ^ 31
    → read_digits (dec_char d ∷ rest) res ≡ read_digits rest (res * 10 + d)
unfolding read_digits dec_char
read_digits-digit d res rest small fits =
    let digit : (leb b'0' (b'0' + d) && leb (b'0' + d) b'9') ≡ true = ground (arith, small) in
    let value : res * 10 + (b'0' + d - b'0') ≡ res * 10 + d = omega arith in
    let below : ltb (res * 10 + d) (2 ^ 31) ≡ true = ground (arith, fits) in
    rw (digit, value, below) refl

one_digit :
    (fuel n : ℕ) (rest : List ℕ)
    → n / 10 ≡ 0
    → n < 2 ^ 31
    → read_digits (numeral 10 dec_char (suc fuel) n ++ rest) 0 ≡ read_digits rest n
unfolding numeral
one_digit fuel n rest e small =
    let value : 0 * 10 + n % 10 ≡ n = omega (arith, e) in
    rw e (rw value at (read_digits-digit (n % 10) 0 rest (omega arith) (omega (arith, small))))

read_digits-numeral :
    (fuel n : ℕ) (rest : List ℕ)
    → Fits 10 (suc fuel) n
    → n < 2 ^ 31
    → read_digits (numeral 10 dec_char (suc fuel) n ++ rest) 0 ≡ read_digits rest n
unfolding numeral
read_digits-numeral zero n rest fits small = one_digit zero n rest fits small
read_digits-numeral (suc fuel) n rest fits small = elim (Bool-cases (n / 10 == 0)) [
  | inl e ↦ one_digit (suc fuel) n rest (ground (arith, e)) small
  | inr e ↦
      let value : n / 10 * 10 + n % 10 ≡ n = omega arith in
      let c = dec_char (n % 10) in
      let front = read_digits-numeral fuel (n / 10) (c ∷ rest) fits (omega arith) in
      let last =
        read_digits-digit (n % 10) (n / 10) rest (omega arith) (omega (arith, value, small)) in
      rw (e, append_assoc (numeral 10 dec_char (suc fuel) (n / 10)) (c ∷ []) rest)
        (front ∙ last ∙ rw value refl)
]

-- A number starts with a digit.
numeral-digit :
    (fuel n : ℕ)
    → Fits 10 (suc fuel) n
    → (d : ℕ) × (d < 10) × (s : List ℕ) × (numeral 10 dec_char (suc fuel) n ≡ dec_char d ∷ s)
unfolding numeral
numeral-digit zero n fits = (n % 10, omega arith, [], rw fits refl)
numeral-digit (suc fuel) n fits = elim (Bool-cases (n / 10 == 0)) [
  | inl e ↦ (n % 10, omega arith, [], rw e refl)
  | inr e ↦
      let (d, digit, s, start) = numeral-digit fuel (n / 10) fits in
      (d, digit, s ++ (dec_char (n % 10) ∷ []), rw (e, start) refl)
]

atoi-positive :
    (n : ℕ) (rest : List ℕ)
    → n < 2 ^ 31
    → atoi (decimal n ++ rest) ≡ (do res ← read_digits rest n; some (pos res))
unfolding atoi skip_spaces read_signed dec_char decimal
atoi-positive n rest small =
    let (d, digit, s, start) = numeral-digit 9 n (Fits-decimal n (omega arith)) in
    let n0 : (b'0' + d == b' ') ≡ false = ground (arith, digit) in
    let n1 : (b'0' + d == b'-') ≡ false = ground (arith, digit) in
    let n2 : (b'0' + d == b'+') ≡ false = ground (arith, digit) in
    let all = rw start at (read_digits-numeral 9 n rest (Fits-decimal n (omega arith)) small) in
    rw (start, n0, n1, n2, all) refl

atoi-minus :
    (m r : ℕ) (rest : List ℕ)
    → read_digits (numeral 10 dec_char 10 m ++ rest) 0 ≡ some r
    → atoi (b'-' ∷ (numeral 10 dec_char 10 m ++ rest)) ≡ some (minus r)
unfolding atoi skip_spaces read_signed
atoi-minus m r rest e = rw e refl

-- What ends a number: the end of the text, or a byte that is not a digit.
abbrev pub Ends : List ℕ → Type 0
Ends [] = Unit {0}
Ends (c ∷ s) = isdigit c ≡ false

read_digits-Ends : (rest : List ℕ) (r : ℕ) → Ends rest → read_digits rest r ≡ some r
unfolding read_digits isdigit
read_digits-Ends [] r ends = refl
read_digits-Ends (c ∷ s) r ends = rw ends refl

-- The text of an `int` is read back by `atoi`, up to what ends the number.
pub atoi-signed_decimal :
    (n : ℕ) (t rest : List ℕ)
    → n < 2 ^ 32
    → Ends rest
    → signed_decimal n ≡ some t
    → atoi (t ++ rest) ≡ some (as_int n)
unfolding signed_decimal magnitude as_int negative decimal
atoi-signed_decimal n t rest small ends e = elim (Bool-cases (leb (2 ^ 31) n)) [
  | inr p ↦
      let result = some-injective _ _ (rw p at e) in
      let below : n < 2 ^ 31 = ground (arith, p) in
      rw (← result, p, atoi-positive n rest below, read_digits-Ends rest n ends) refl
  | inl p ↦ elim (Bool-cases (n == 2 ^ 31)) [
    | inl q ↦ absurd (none-ne-some t (rw (p, q) at e))
    | inr q ↦
        let result = some-injective _ _ (rw (p, q) at e) in
        let m = 2 ^ 32 - n in
        let below : m < 2 ^ 31 = ground (arith, p, q, small) in
        let digits = read_digits-numeral 9 m rest (Fits-decimal m (omega arith)) below in
        rw (← result, p) (atoi-minus m m rest (digits ∙ read_digits-Ends rest m ends))
  ]
]

length-signed_decimal : (n : ℕ) (t : List ℕ) → signed_decimal n ≡ some t → length t ≤ 11
unfolding signed_decimal magnitude negative decimal
length-signed_decimal n t e = elim (Bool-cases (leb (2 ^ 31) n)) [
  | inr p ↦
      let result = some-injective _ _ (rw p at e) in
      rw (← result) (omega (arith, length-numeral 10 dec_char 10 n))
  | inl p ↦ elim (Bool-cases (n == 2 ^ 31)) [
    | inl q ↦ absurd (none-ne-some t (rw (p, q) at e))
    | inr q ↦
        let result = some-injective _ _ (rw (p, q) at e) in
        rw (← result) (omega (arith, length-numeral 10 dec_char 10 (2 ^ 32 - n)))
  ]
]

signed_decimal-some : (n : ℕ) → n ≢ 2 ^ 31 → (t : List ℕ) × (signed_decimal n ≡ some t)
unfolding signed_decimal magnitude negative
signed_decimal-some n least =
    let q : (n == 2 ^ 31) ≡ false = ground (arith, least) in
    elim (Bool-cases (leb (2 ^ 31) n)) [
      | inl p ↦ (b'-' ∷ decimal (2 ^ 32 - n), rw (p, q) refl)
      | inr p ↦ (decimal n, rw p refl)
    ]

one_conversion :
    (n : ℕ) (t : List ℕ)
    → signed_decimal n ≡ some t
    → expand bounded_meaning (some []) (b'%' ∷ b'd' ∷ []) (word n ∷ []) ≡ some t
unfolding expand bounded_meaning int_arg
one_conversion n t e = rw (e, append-nil t) refl

-- Every `int` but the least one that `vsnprintf` prints by `%d` into a buffer of at least twelve
-- bytes is read back from the buffer by `atoi`.
pub atoi-vsnprintf :
    (buf : List ℕ) (n : ℕ)
    → 12 ≤ length buf
    → n < 2 ^ 32
    → n ≢ 2 ^ 31
    → (printed : List ℕ) × (r : ℕ) × (vsnprintf buf (length buf) (b'%' ∷ b'd' ∷ []) (word n ∷ [])
        ≡ some (printed, r))
      × (atoi printed ≡ some (as_int n))
atoi-vsnprintf [] n room small least = absurd (omega arith)
atoi-vsnprintf (b ∷ buf) n room small least =
    let (t, e) = signed_decimal-some n least in
    let m = length buf in
    let whole : take m t ≡ t = take_all m t (omega (arith, room, length-signed_decimal n t e)) in
    let behind = drop (suc (length t)) (b ∷ buf) in
    let cut =
      vsnprintf-cuts (b ∷ buf) m refl (b'%' ∷ b'd' ∷ []) (word n ∷ []) t (omega arith) (omega arith)
        (one_conversion n t e) in
    (
      t ++ (0 ∷ behind),
      length t,
      rw whole at cut,
      atoi-signed_decimal n t (0 ∷ behind) small (unfold isdigit in refl) e,
    )
