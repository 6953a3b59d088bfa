-- ===== src/Initrd/Octal.antt =====
-- The octal numbers of tar headers, which `parse_octal` of kernel/initrd.c reads.
use reta_os.Prelude.{
  ℕ, zero, suc, ◌+◌, ◌-◌, ◌*◌, ◌/◌, ◌%◌, ◌^◌, ◌<◌, ◌≡◌, refl, ◌∙◌, ◌||◌, false, List, [], ◌∷◌, ◌++◌,
  ◌==◌, ltb, arith, append_assoc,
}
use reta_os.Vfs.Node.{u32}
use reta_os.Initrd.{parse_octal}

-- `n` in `width` octal digits.
abbrev pub octal : (width n : ℕ) → List ℕ
octal zero n = []
octal (suc width) n = octal width (n / 8) ++ ((b'0' + n % 8) ∷ [])

-- Powers of 8
abbrev pub eights : ℕ → ℕ
eights zero = 1
eights (suc width) = 8 * eights width

parse_octal-digit :
    (val d : ℕ) (rest : List ℕ)
    → d < 8
    → val * 8 + d < 2 ^ 32
    → parse_octal ((b'0' + d) ∷ rest) val ≡ parse_octal rest (val * 8 + d)
unfolding parse_octal
parse_octal-digit val d rest small fits =
    let is_digit : (b'0' + d == 0 || ltb (b'0' + d) b'0' || ltb b'7' (b'0' + d)) ≡ false =
      ground arith in
    let value : u32 (val * 8 + (b'0' + d - b'0')) ≡ val * 8 + d = omega arith in
    rw (is_digit, value) refl

-- A number below 2^32 and below 8^width that is written in that many octal digits is read by
-- `parse_octal` as it is, and the reading goes on behind it.
parse_octal-octal :
    (width n : ℕ) (rest : List ℕ)
    → n < eights width
    → n < 2 ^ 32
    → parse_octal (octal width n ++ rest) 0 ≡ parse_octal rest n
parse_octal-octal zero n rest fits small =
    let nothing : n ≡ 0 = omega (arith, fits) in rw nothing refl
parse_octal-octal (suc width) n rest fits small =
    let value : n / 8 * 8 + n % 8 ≡ n = omega arith in
    let digit : n % 8 < 8 = omega arith in
    let front =
      parse_octal-octal width (n / 8) ((b'0' + n % 8) ∷ rest) (omega (arith, fits)) (omega arith) in
    let last = parse_octal-digit (n / 8) (n % 8) rest digit (omega arith) in
    rw (append_assoc (octal width (n / 8)) ((b'0' + n % 8) ∷ []) rest)
      (front ∙ last ∙ rw value refl)
