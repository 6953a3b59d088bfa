-- ===== src/Console/Print/Digits.antt =====
-- The digits that `console_put_hex`, `console_put_dec` and `console_vprintf` print.
use reta_os.Prelude.{
  ℕ, zero, suc, ◌-◌, ◌*◌, ◌/◌, ◌%◌, ◌^◌, ◌≤◌, ◌<◌, ◌≡◌, refl, ap, sym, ◌∙◌, fun_ext, true, false,
  inl, inr, Bool-cases, Option-cases, Option, List, [], ◌∷◌, ◌++◌, ◌==◌, arith, length, take,
  replicate, take_all, length-replicate,
}
use reta_os.Prelude.Maybe.{◌>>=◌}
use reta_os.Text.Numerals.{
  dec_char, hex_char, upper_hex_char, backwards, while_digits, do_digits, numeral, fixed_hex,
  fixed_hex-first, backwards-do_digits, numeral_enough, Fits, Fits-add, Fits-decimal,
}
use reta_os.Text.Expand.{decimal}
use reta_os.Console.{Console, console_putc}
use reta_os.Console.Print.{put_all, put_hex_digits, console_put_hex, console_put_dec, eight_digits}

put_hex_digits-fixed :
    (left n : ℕ) (c : Console)
    → put_hex_digits left n c ≡ put_all (fixed_hex upper_hex_char left n) c
unfolding put_hex_digits put_all
put_hex_digits-fixed zero n c = unfold fixed_hex in refl
put_hex_digits-fixed (suc left) n c =
    let ch = upper_hex_char (n / 2 ^ (4 * left) % 16) in
    rw (fixed_hex-first upper_hex_char left n) (
      ap (λ (k : Console → Option Console). console_putc c ch >>= k)
        (fun_ext (λ c. put_hex_digits-fixed left n c)))

pub digits_30 : (n : ℕ) → n < 2 ^ 32 → backwards (do_digits 10 dec_char 30 n) ≡ decimal n
unfolding decimal
digits_30 n h =
    let fits = Fits-decimal n h in
    let more : Fits 10 30 n = Fits-add 10 10 20 n fits in
    backwards-do_digits 10 dec_char 29 n more ∙ numeral_enough 10 dec_char 29 9 n more fits

-- Where the number is not 0, a while loop is a do-while loop.
while_digits-do :
    (n : ℕ) → (n == 0) ≡ false → while_digits 10 dec_char 11 n ≡ do_digits 10 dec_char 11 n
unfolding while_digits do_digits
while_digits-do n e = rw e refl

pub put_all-one : (ch : ℕ) (c : Console) → put_all (ch ∷ []) c ≡ console_putc c ch
unfolding put_all
put_all-one ch c = elim (Option-cases (console_putc c ch)) [
  | inl e ↦ rw e refl
  | inr (next, e) ↦ rw e refl
]

zero_digit : (n : ℕ) (c : Console) → (n == 0) ≡ true → console_putc c b'0' ≡ put_all (decimal n) c
unfolding decimal numeral dec_char
zero_digit n c e = let nothing : n ≡ 0 = ground (arith, e) in rw nothing (sym (put_all-one b'0' c))

-- `console_put_hex` prints a word in its eight hexadecimal digits, and `console_put_dec` prints it in decimal.
pub console_put-numbers :
    (c : Console) (n : ℕ)
    → n < 2 ^ 32
    → (console_put_hex c n ≡ put_all (fixed_hex upper_hex_char 8 n) c)
      × (console_put_dec c n ≡ put_all (decimal n) c)
unfolding console_put_hex console_put_dec decimal
console_put-numbers c n h =
    let fits = Fits-decimal n h in
    let more : Fits 10 11 n = Fits-add 10 10 1 n fits in
    let digits =
      backwards-do_digits 10 dec_char 10 n more ∙ numeral_enough 10 dec_char 10 9 n more fits in
    (
      put_hex_digits-fixed 8 n c,
      elim (Bool-cases (n == 0)) [
        | inl e ↦ rw e (unfold decimal in zero_digit n c e)
        | inr e ↦ rw (e, while_digits-do n e, digits) refl
      ],
    )

-- The digits from the last one on, in a fixed number.
last_first : (digits n : ℕ) → List ℕ
last_first zero n = []
last_first (suc digits) n = hex_char (n % 16) ∷ last_first digits (n / 16)

backwards-last_first :
    (digits n : ℕ) → backwards (last_first digits n) ≡ fixed_hex hex_char digits n
unfolding backwards last_first fixed_hex
backwards-last_first zero n = refl
backwards-last_first (suc digits) n =
    ap (λ (l : List ℕ). l ++ (hex_char (n % 16) ∷ [])) (backwards-last_first digits (n / 16))

last_first-zero : (digits n : ℕ) → n ≡ 0 → last_first digits n ≡ replicate digits b'0'
unfolding last_first hex_char
last_first-zero zero n e = refl
last_first-zero (suc digits) n e =
    rw e (ap (λ (l : List ℕ). b'0' ∷ l) (last_first-zero digits (0 / 16) (omega arith)))

padded :
    (digits room n : ℕ)
    → digits ≤ room
    → (let found = while_digits 16 hex_char room n in
        take digits (found ++ replicate (digits - length found) b'0') ≡ last_first digits n)
unfolding while_digits last_first
padded zero room n h = refl
padded (suc digits) zero n h = absurd (omega arith)
padded (suc digits) (suc room) n h = elim (Bool-cases (n == 0)) [
  | inl e ↦
      let zeros = last_first-zero (suc digits) n (ground (arith, e)) in
      let whole : suc digits - 0 ≡ suc digits = omega arith in
      rw (e, whole)
        (ap (λ (l : List ℕ). b'0' ∷ l)
            (take_all digits (replicate digits b'0')
              (omega (arith, length-replicate {A = ℕ} digits b'0')))
          ∙ sym zeros)
  | inr e ↦
      let found = while_digits 16 hex_char room (n / 16) in
      let fewer : suc digits - suc (length found) ≡ digits - length found = omega arith in
      rw (e, fewer)
        (ap (λ (l : List ℕ). hex_char (n % 16) ∷ l) (padded digits room (n / 16) (omega arith)))
]

-- `%x` of `console_vprintf` always prints eight digits.
pub backwards-eight_digits : (n : ℕ) → backwards (eight_digits n) ≡ fixed_hex hex_char 8 n
unfolding eight_digits do_digits
backwards-eight_digits n =
    let found = while_digits 16 hex_char 29 (n / 16) in
    let fewer : 8 - suc (length found) ≡ 7 - length found = omega arith in
    rw (fewer, padded 7 29 (n / 16) (omega arith)) (unfold last_first in backwards-last_first 8 n)
