-- ===== src/Libc/Printf/Conversions.antt =====
-- The conversions of `vprintf` of libc/src/stdio.c where their texts fit its array.
use reta_os.Prelude.{
  Option, if_both, ℕ, suc, ◌^◌, ◌≤◌, ◌<◌, ◌≡◌, refl, ◌∙◌, ◌||◌, some, inl, inr, List, [], ◌∷◌, ◌++◌,
  arith, ◌==◌, Bool-cases, Option-cases, length, length-append, append-nil, add_last,
}
use mathlib.Core.Option.{some-injective, none-ne-some}
use reta_os.Prelude.Maybe.{◌>>=◌}
use reta_os.Text.Numerals.{
  dec_char, backwards, do_digits, numeral, Fits, backwards-do_digits, numeral_enough, Fits-add,
  Fits-decimal,
}
use reta_os.Text.Expand.{Arg, word, text, null, negative, magnitude, decimal, signed_decimal}
use reta_os.Libc.Buffer.{Out, emit, emit_all}
use reta_os.Libc.Printf.{put_int, put_text, convert}
use reta_os.Text.Meaning.{magnitude-lt, AreWords, int_arg, string_arg}
use reta_os.Libc.Meaning.{printed_meaning}
use reta_os.Libc.Bounded.{kept, emit-kept, copy_text-kept}
use reta_os.Libc.Bounded.Conversions.{after, put_char-kept}

pub num_str :
    (n : ℕ) → n < 2 ^ 32 → backwards (do_digits 10 dec_char 16 n) ≡ numeral 10 dec_char 10 n
num_str n h =
    let fits = Fits-decimal n h in
    let more : Fits 10 16 n = Fits-add 10 10 6 n fits in
    backwards-do_digits 10 dec_char 15 n more ∙ numeral_enough 10 dec_char 15 9 n more fits

module _ (init : List ℕ) (m : ℕ) (room : length init ≡ suc m) where
  emit_all-kept :
      (s t : List ℕ)
      → length (t ++ s) ≤ m
      → emit_all s (kept init m t) ≡ some (kept init m (t ++ s))
  unfolding emit_all
  emit_all-kept [] t h = rw (append-nil t) refl
  emit_all-kept (c ∷ s) t h =
      let rest = emit_all-kept s (t ++ (c ∷ [])) (rw (add_last t c s) h) in
      rw (emit-kept init m room t c (omega (arith, h, length-append t (c ∷ s))))
        (rw (add_last t c s) at rest)

module _ (init : List ℕ) (room : length init ≡ 256) where
  put_int-kept :
      (args : List Arg) (t : List ℕ) (r : List ℕ × List Arg)
      → AreWords args
      → int_arg args ≡ some r
      → length (t ++ r.0) ≤ 255
      → put_int args (kept init 255 t) ≡ some (kept init 255 (t ++ r.0), r.1)
  unfolding put_int int_arg signed_decimal decimal
  put_int-kept [] t r words e fits = absurd (none-ne-some r e)
  put_int-kept (text s ∷ args) t r words e fits = absurd (none-ne-some r e)
  put_int-kept (null ∷ args) t r words e fits = absurd (none-ne-some r e)
  put_int-kept (word n ∷ args) t r (small, words) e fits = elim (Option-cases (magnitude n)) [
    | inl g ↦ absurd (none-ne-some r (rw g at e))
    | inr (v, g) ↦
        let digits = numeral 10 dec_char 10 v in
        let tmp = num_str v (magnitude-lt n v small g) in
        elim (Bool-cases (negative n)) [
          | inr p ↦
              let result = some-injective _ _ (rw (g, p) at e) in
              let enough : length (t ++ digits) ≤ 255 = rw (← result) at fits in
              rw (g, p, tmp, emit_all-kept init 255 room digits t enough, ← result) refl
          | inl p ↦
              let result = some-injective _ _ (rw (g, p) at e) in
              let enough : length (t ++ (b'-' ∷ digits)) ≤ 255 = rw (← result) at fits in
              let t' = t ++ (b'-' ∷ []) in
              let first : length t < 255 = omega (arith, enough, length-append t (b'-' ∷ digits)) in
              let rest =
                emit_all-kept init 255 room digits t' (rw (add_last t b'-' digits) enough) in
              rw
                (
                  g,
                  p,
                  tmp,
                  emit-kept init 255 room t b'-' first,
                  rest,
                  add_last t b'-' digits,
                  ← result,
                )
                refl
        ]
  ]

  put_text-kept :
      (args : List Arg) (t : List ℕ) (r : List ℕ × List Arg)
      → string_arg args ≡ some r
      → put_text args (kept init 255 t) ≡ some (kept init 255 (t ++ r.0), r.1)
  unfolding put_text string_arg
  put_text-kept [] t r e = absurd (none-ne-some r e)
  put_text-kept (text s ∷ args) t r e =
      rw (copy_text-kept init 255 room s t, ← some-injective _ _ e) refl
  put_text-kept (null ∷ args) t r e = absurd (none-ne-some r e)
  put_text-kept (word n ∷ args) t r e = absurd (none-ne-some r e)

  -- Both results of a conversion that takes its argument and has room for its text.
  abbrev pub Printed : List ℕ → Option (List ℕ × List Arg) → Option (Out × List Arg) → Type 0
  Printed t means does =
      (r : List ℕ × List Arg)
      → means ≡ some r
      → length (t ++ r.0) ≤ 255
      → does ≡ some (kept init 255 (t ++ r.0), r.1)

  put_percent :
      (args : List Arg) (t : List ℕ)
      → length t < 255
      → Printed t (some (b'%' ∷ [], args)) (do o ← emit (kept init 255 t) b'%'; some (o, args))
  put_percent args t more r e fits =
      rw (emit-kept init 255 room t b'%' more, ← some-injective _ _ e) refl

  put_literal :
      (s : List ℕ) (args : List Arg) (t : List ℕ)
      → Printed t (some (s, args)) (do o ← emit_all s (kept init 255 t); some (o, args))
  put_literal s args t r e fits =
      let result = some-injective _ _ e in
      rw (← result, emit_all-kept init 255 room s t (rw (← result) at fits)) refl

  pub convert-Printed :
      (d : ℕ) (args : List Arg) (t : List ℕ)
      → AreWords args
      → length t < 255
      → Printed t (printed_meaning d args) (convert d args (kept init 255 t))
  unfolding convert printed_meaning
  convert-Printed d args t words more =
      if_both (Printed t) (d == b'd' || d == b'i') (λ r e fits. put_int-kept args t r words e fits)
        (if_both (Printed t) (d == b's') (λ r e fits. put_text-kept args t r e)
          (if_both (Printed t) (d == b'c')
            (λ r e fits. put_char-kept init 255 room args t more ∙ rw e (unfold after in refl))
            (if_both (Printed t) (d == b'x' || d == b'X') (λ r e fits. absurd (none-ne-some r e))
              (if_both (Printed t) (d == b'%') (put_percent args t more)
                (put_literal (b'%' ∷ d ∷ []) args t)))))
