-- ===== src/Libc/Strings/Compare.antt =====
-- `strncmp` of libc/src/string.c against that of kernel/string.c.
use reta_os.Prelude.{
  ℕ, zero, suc, ◌+◌, ◌-◌, ◌%◌, ◌^◌, ◌<◌, ◌≡◌, refl, false, not, ◌&&◌, inl, inr, List, [], ◌∷◌, ◌==◌,
  arith, if◌then◌else◌, Bool-cases, drop,
}
use reta_os.Prelude.Int.{ℤ, pos, sub_ℕ}
use reta_os.Text
use reta_os.Text.{head_byte}

-- `while (n-- && *s1 && *s1 == *s2)`: the count behind the loop, which is 2^32 - 1 where the first test
-- ended it, and the two pointers.
unfoldable compare_loop : ℕ → List ℕ → List ℕ → ℕ × List ℕ × List ℕ
compare_loop zero s t = (2 ^ 32 - 1, s, t)
compare_loop (suc n) s t =
    let rest = compare_loop n (drop 1 s) (drop 1 t) in
    let stopped : ℕ × List ℕ × List ℕ = (n, s, t) in
    if not (head_byte s == 0) && head_byte s == head_byte t then rest else stopped

unfoldable strncmp : List ℕ → List ℕ → ℕ → ℤ
strncmp s t n =
    let (left, s', t') = compare_loop n s t in
    if (left + 1) % 2 ^ 32 == 0 then pos 0 else sub_ℕ (head_byte s') (head_byte t')

-- Both libraries compare the same way, for every count of 32 bits.
strncmp-kernel : (n : ℕ) (s t : List ℕ) → n < 2 ^ 32 → strncmp s t n ≡ Text.strncmp s t n
unfolding strncmp compare_loop Text.strncmp
strncmp-kernel zero s t small = refl
strncmp-kernel (suc n) [] t small =
    let wraps : ((n + 1) % 2 ^ 32 == 0) ≡ false = ground arith in rw wraps refl
strncmp-kernel (suc n) (a ∷ s) [] small =
    let wraps : ((n + 1) % 2 ^ 32 == 0) ≡ false = ground arith in
    elim (Bool-cases (a == 0)) [ inl e ↦ rw (e, wraps) refl | inr e ↦ rw (e, wraps) refl ]
strncmp-kernel (suc n) (a ∷ s) (b ∷ t) small =
    let wraps : ((n + 1) % 2 ^ 32 == 0) ≡ false = ground arith in
    elim (Bool-cases (not (a == 0) && a == b)) [
      | inl e ↦ rw e (strncmp-kernel n s t (omega arith))
      | inr e ↦ rw (e, wraps) refl
    ]
