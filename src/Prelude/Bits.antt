-- ===== src/Prelude/Bits.antt =====
-- `|`, `&` and `~` of C on single bits, for words of any width, by their digit recursion.
use Prim.Native.Nat.{
  ℕ, zero, suc, ◌+◌, ◌-◌, ◌*◌, ◌/◌, ◌%◌, ◌^◌, ◌≤◌, ◌<◌, min, max, bit_and, bit_or, digits, bitwise,
  bit_and-bitwise, bit_or-bitwise,
}
use mathlib.Core.Path.{◌≡◌, refl, sym, ap, ◌∙◌}
use native.Mathlib.Nat.{pow-suc, one-le-pow, div-add-mod', div-div-eq-div-mul, mul_comm}
use native.Mathlib.Omega.{arith}
use reta_os.Prelude.Tests.{◌==◌, if◌then◌else◌}

-- The digit recursion of the library takes fuel; its value is that of any fuel that is enough.
module _ (z : ℕ → ℕ) (f : ℕ → ℕ → ℕ) where
  no_digits : (fuel b : ℕ) → digits z f fuel 0 b ≡ z b
  no_digits zero b = refl
  no_digits (suc fuel) b = refl

  digits_enough :
      (a b less more : ℕ) → a ≤ more → a ≤ less → digits z f less a b ≡ digits z f more a b
  digits_enough zero b less more h k = no_digits less b ∙ sym (no_digits more b)
  digits_enough (suc a) b (suc less) (suc more) h k =
      let rest = digits_enough (suc a / 2) (b / 2) less more (omega arith) (omega arith) in
      rw rest refl
  digits_enough (suc a) b zero more h k = absurd (omega arith)
  digits_enough (suc a) b (suc less) zero h k = absurd (omega arith)

  bitwise_halve :
      (a b : ℕ)
      → bitwise z f (suc a) b ≡ bitwise z f (suc a / 2) (b / 2) * 2 + f (suc a % 2) (b % 2)
  bitwise_halve a b =
      omega (arith, digits_enough (suc a / 2) (b / 2) a (suc a / 2) (omega arith) (omega arith))

pub bit_or_halve : (a b : ℕ) → bit_or a b ≡ bit_or (a / 2) (b / 2) * 2 + max (a % 2) (b % 2)
bit_or_halve zero b = simp bit_or-bitwise (omega arith)
bit_or_halve (suc a) b = simp bit_or-bitwise (bitwise_halve (λ y. y) max a b)

pub bit_and_halve : (a b : ℕ) → bit_and a b ≡ bit_and (a / 2) (b / 2) * 2 + min (a % 2) (b % 2)
bit_and_halve zero b = simp bit_and-bitwise (omega arith)
bit_and_halve (suc a) b = simp bit_and-bitwise (bitwise_halve (λ y. 0) min a b)

-- A number is determined by its halves.
same_halves :
    (g h digit : ℕ → ℕ)
    → g 0 ≡ h 0
    → ((x : ℕ) → g x ≡ g (x / 2) * 2 + digit x)
    → ((x : ℕ) → h x ≡ h (x / 2) * 2 + digit x)
    → (bound x : ℕ) → x ≤ bound
    → g x ≡ h x
same_halves g h digit start by_g by_h bound zero le = start
same_halves g h digit start by_g by_h (suc bound) (suc x) le =
    let rest = same_halves g h digit start by_g by_h bound (suc x / 2) (omega arith) in
    omega (arith, by_g (suc x), by_h (suc x), rest)
same_halves g h digit start by_g by_h zero (suc x) le = absurd (omega arith)

pub bit_and-zero : (a : ℕ) → bit_and a 0 ≡ 0
bit_and-zero a =
    same_halves (λ x. bit_and x 0) (λ x. 0) (λ x. 0) refl (λ x. omega (arith, bit_and_halve x 0))
      (λ x. omega arith) a a (omega arith)

pub bit_or-zero : (a : ℕ) → bit_or a 0 ≡ a
bit_or-zero a =
    same_halves (λ x. bit_or x 0) (λ x. x) (λ x. x % 2) refl (λ x. omega (arith, bit_or_halve x 0))
      (λ x. omega arith) a a (omega arith)

-- Bit `k` of a word, as 0 or 1.
unfoldable pub bit_at : ℕ → ℕ → ℕ
bit_at w zero = w % 2
bit_at w (suc k) = bit_at (w / 2) k

pub bit_at-le : (w k : ℕ) → bit_at w k ≤ 1
unfolding bit_at
bit_at-le w zero = omega arith
bit_at-le w (suc k) = bit_at-le (w / 2) k

-- `w & (1 << k)` is the bit at its place.
pub bit_and_single : (w k : ℕ) → bit_and w (2 ^ k) ≡ bit_at w k * 2 ^ k
unfolding bit_at
bit_and_single w zero = omega (arith, bit_and_halve w 1, bit_and-zero (w / 2))
bit_and_single w (suc k) = ground (
  arith,
  pow-suc 2 k,
  bit_and_halve w (2 ^ suc k),
  bit_and_single (w / 2) k,
  ap (λ (t : ℕ). bit_at (w / 2) k * t) (pow-suc 2 k),
)

or_single_half : (w k : ℕ) → bit_or w (2 ^ suc k) / 2 ≡ bit_or (w / 2) (2 ^ k)
or_single_half w k = ground (arith, pow-suc 2 k, bit_or_halve w (2 ^ suc k))

-- `w | (1 << k)` sets bit `k` and keeps the others.
pub bit_at-set : (w k j : ℕ) → bit_at (bit_or w (2 ^ k)) j ≡ (if j == k then 1 else bit_at w j)
unfolding bit_at
bit_at-set w zero zero = omega (arith, bit_or_halve w 1)
bit_at-set w zero (suc j) = ground (arith, bit_or_halve w 1, bit_or-zero (w / 2))
bit_at-set w (suc k) zero = ground (arith, pow-suc 2 k, bit_or_halve w (2 ^ suc k))
bit_at-set w (suc k) (suc j) = rw or_single_half (ground (arith, bit_at-set (w / 2) k j))

-- All bits below `n` but bit `k`: `~(1 << k)` at width `n`.
abbrev pub all_but : ℕ → ℕ → ℕ
all_but n k = 2 ^ n - 1 - 2 ^ k

single-le : (n k : ℕ) → k < n → 2 ^ k + 1 ≤ 2 ^ n
single-le (suc n) zero h = omega (arith, pow-suc 2 n, one-le-pow n 2)
single-le (suc n) (suc k) h = omega (arith, pow-suc 2 n, pow-suc 2 k, single-le n k (omega arith))
single-le zero k h = absurd (omega arith)

and-half : (w m q : ℕ) → m / 2 ≡ q → bit_and w m / 2 ≡ bit_and (w / 2) q
and-half w m q e = rw (← e) (omega (arith, bit_and_halve w m))

ones-half : (n : ℕ) → (2 ^ suc n - 1) / 2 ≡ 2 ^ n - 1
ones-half n = omega (arith, pow-suc 2 n, one-le-pow n 2)

all_but_zero-half : (n : ℕ) → all_but (suc n) 0 / 2 ≡ 2 ^ n - 1
all_but_zero-half n = omega (arith, pow-suc 2 n, one-le-pow n 2)

all_but-half : (n k : ℕ) → k < n → all_but (suc n) (suc k) / 2 ≡ all_but n k
all_but-half n k h = omega (arith, pow-suc 2 n, pow-suc 2 k, single-le n k h)

low_ones : (n : ℕ) (w j : ℕ) → j < n → bit_at (bit_and w (2 ^ n - 1)) j ≡ bit_at w j
unfolding bit_at
low_ones zero w j h = absurd (omega arith)
low_ones (suc n) w zero h =
    omega (arith, bit_and_halve w (2 ^ suc n - 1), pow-suc 2 n, one-le-pow n 2)
low_ones (suc n) w (suc j) h =
    rw (and-half w (2 ^ suc n - 1) (2 ^ n - 1) (ones-half n)) (low_ones n (w / 2) j (omega arith))

-- `w & ~(1 << k)` clears bit `k` and keeps the others.
pub bit_at-clear :
    (n w k j : ℕ)
    → k < n
    → j < n
    → bit_at (bit_and w (all_but n k)) j ≡ (if j == k then 0 else bit_at w j)
unfolding bit_at
bit_at-clear zero w k j h l = absurd (omega arith)
bit_at-clear (suc n) w zero zero h l =
    omega (arith, bit_and_halve w (all_but (suc n) 0), pow-suc 2 n, one-le-pow n 2)
bit_at-clear (suc n) w zero (suc j) h l =
    rw (and-half w (all_but (suc n) 0) (2 ^ n - 1) (all_but_zero-half n))
      (ground (arith, low_ones n (w / 2) j))
bit_at-clear (suc n) w (suc k) zero h l =
    ground
      (arith, bit_and_halve w (all_but (suc n) (suc k)), pow-suc 2 n, pow-suc 2 k, single-le n k)
bit_at-clear (suc n) w (suc k) (suc j) h l =
    rw (and-half w (all_but (suc n) (suc k)) (all_but n k) (all_but-half n k (omega arith)))
      (ground (arith, bit_at-clear n (w / 2) k j))

halved_remainder : (n w : ℕ) → w % 2 ^ suc n ≡ w / 2 % 2 ^ n * 2 + w % 2
halved_remainder n w =
    let twice : 2 ^ suc n ≡ 2 * 2 ^ n = omega (arith, pow-suc 2 n) in
    rw twice (
      omega (
        arith,
        div-add-mod' w (2 * 2 ^ n),
        div-add-mod' (w / 2) (2 ^ n),
        ap (λ (t : ℕ). t * 2 ^ n) (div-div-eq-div-mul w 2 (2 ^ n)),
      ))

-- `w & (2^n - 1)` is the remainder.
pub bit_and_ones : (n w : ℕ) → bit_and w (2 ^ n - 1) ≡ w % 2 ^ n
bit_and_ones zero w = rw bit_and-zero (omega arith)
bit_and_ones (suc n) w = ground (
  arith,
  bit_and_halve w (2 ^ suc n - 1),
  pow-suc 2 n,
  one-le-pow n 2,
  bit_and_ones n (w / 2),
  halved_remainder n w,
)

-- Low zeros of a mask.
pub bit_and-shifted : (k m w : ℕ) → bit_and w (m * 2 ^ k) ≡ bit_and (w / 2 ^ k) m * 2 ^ k
bit_and-shifted zero m w =
    let one : m * 2 ^ 0 ≡ m = omega arith in
    let whole : w / 2 ^ 0 ≡ w = omega arith in rw (one, whole) (omega arith)
bit_and-shifted (suc k) m w =
    let mask : m * 2 ^ suc k ≡ m * 2 ^ k * 2 = omega (arith, ap (λ (t : ℕ). m * t) (pow-suc 2 k)) in
    let deep : w / 2 ^ suc k ≡ w / 2 / 2 ^ k =
      rw (pow-suc 2 k, mul_comm (2 ^ k) 2) (sym (div-div-eq-div-mul w 2 (2 ^ k))) in
    let low : bit_and w (m * 2 ^ k * 2) ≡ bit_and (w / 2) (m * 2 ^ k) * 2 =
      let back : m * 2 ^ k * 2 / 2 ≡ m * 2 ^ k = omega arith in
      rw (bit_and_halve w (m * 2 ^ k * 2), back) (omega arith) in
    let up : bit_and (w / 2 / 2 ^ k) m * 2 ^ k * 2 ≡ bit_and (w / 2 / 2 ^ k) m * 2 ^ suc k =
      omega (arith, ap (λ (t : ℕ). bit_and (w / 2 / 2 ^ k) m * t) (pow-suc 2 k)) in
    rw (mask, deep, low, bit_and-shifted k m (w / 2)) up
