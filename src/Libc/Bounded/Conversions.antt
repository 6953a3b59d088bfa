-- ===== src/Libc/Bounded/Conversions.antt =====
-- The conversions of `vsnprintf` of libc/src/stdio.c.
use reta_os.Prelude.{
  if_both, ℕ, suc, ◌%◌, ◌^◌, ◌≤◌, ◌<◌, ◌≡◌, refl, ◌∙◌, Option, some, inl, inr, List, [], ◌∷◌, ◌++◌,
  arith, ltb, ◌==◌, Bool-cases, Option-cases, length, add_last,
}
use reta_os.Prelude.Maybe.{◌>>=◌}
use reta_os.Text.{strlen}
use reta_os.Text.Numerals.{
  dec_char, hex_char, backwards, do_digits, numeral, Fits, backwards-do_digits, numeral_enough,
  Fits-add, Fits-decimal, Fits-hex,
}
use reta_os.Text.Expand.{Arg, word, text, null, negative, magnitude, decimal, signed_decimal}
use reta_os.Libc.Buffer.{Out}
use reta_os.Libc.{
  null_text, bounded_text, bounded_int, bounded_hex, put_char, bounded_unknown, bounded_convert,
}
use reta_os.Text.Meaning.{int_arg, hex_arg, char_arg, AreWords, magnitude-lt}
use reta_os.Libc.Meaning.{text_arg, bounded_meaning}
use reta_os.Libc.Bounded.{kept, kept_full, room_test, emit-kept, copy_digits-kept, copy_text-kept}

hex_digits : (n : ℕ) → n < 2 ^ 32 → backwards (do_digits 16 hex_char 32 n) ≡ numeral 16 hex_char 8 n
hex_digits n h =
    let fits = Fits-hex n h in
    let more : Fits 16 32 n = Fits-add 16 8 24 n fits in
    backwards-do_digits 16 hex_char 31 n more ∙ numeral_enough 16 hex_char 31 7 n more fits

decimal_digits :
    (n : ℕ) → n < 2 ^ 32 → backwards (do_digits 10 dec_char 32 n) ≡ numeral 10 dec_char 10 n
decimal_digits n h =
    let fits = Fits-decimal n h in
    let more : Fits 10 32 n = Fits-add 10 10 22 n fits in
    backwards-do_digits 10 dec_char 31 n more ∙ numeral_enough 10 dec_char 31 9 n more fits

module _ (init : List ℕ) (m : ℕ) where
  -- A conversion that writes the text that it stands for.
  unfoldable pub after : List ℕ → List ℕ × List Arg → Option (Out × List Arg)
  after t r = some (kept init m (t ++ r.0), r.1)

module _ (init : List ℕ) (m : ℕ) (room : length init ≡ suc m) where
  bounded_text-kept :
      (args : List Arg) (t : List ℕ)
      → bounded_text (suc m) args (kept init m t) ≡ (text_arg args >>= after init m t)
  unfolding bounded_text text_arg after
  bounded_text-kept [] t = refl
  bounded_text-kept (text s ∷ args) t = rw (copy_text-kept init m room s t) refl
  bounded_text-kept (null ∷ args) t =
      rw (copy_text-kept init m room null_text t) (unfold strlen in refl)
  bounded_text-kept (word n ∷ args) t = refl

  bounded_hex-kept :
      (args : List Arg) (t : List ℕ)
      → AreWords args
      → bounded_hex (suc m) args (kept init m t) ≡ (hex_arg args >>= after init m t)
  unfolding bounded_hex hex_arg after
  bounded_hex-kept [] t words = refl
  bounded_hex-kept (text s ∷ args) t words = refl
  bounded_hex-kept (null ∷ args) t words = refl
  bounded_hex-kept (word n ∷ args) t (small, words) =
      rw (hex_digits n small, copy_digits-kept init m room (numeral 16 hex_char 8 n) t) refl

  pub put_char-kept :
      (args : List Arg) (t : List ℕ)
      → length t < m
      → put_char args (kept init m t) ≡ (char_arg args >>= after init m t)
  unfolding put_char char_arg after
  put_char-kept [] t h = refl
  put_char-kept (text s ∷ args) t h = refl
  put_char-kept (null ∷ args) t h = refl
  put_char-kept (word n ∷ args) t h = rw (emit-kept init m room t (n % 2 ^ 8) h) refl

  bounded_unknown-kept :
      (d : ℕ) (t : List ℕ)
      → length t < m
      → bounded_unknown (suc m) d (kept init m t) ≡ some (kept init m (t ++ (b'%' ∷ d ∷ [])))
  unfolding bounded_unknown
  bounded_unknown-kept d t h =
      let t' = t ++ (b'%' ∷ []) in
      elim (Bool-cases (ltb (length t') m)) [
        | inl more ↦
            rw
              (
                emit-kept init m room t b'%' h,
                room_test init m t',
                more,
                emit-kept init m room t' d (ground (arith, more)),
                add_last t b'%' (d ∷ []),
              )
              refl
        | inr full ↦
            rw
              (
                emit-kept init m room t b'%' h,
                room_test init m t',
                full,
                ← add_last t b'%' (d ∷ []),
                kept_full init m t' (d ∷ []) (ground (arith, full)),
              )
              refl
      ]

  bounded_int-kept :
      (args : List Arg) (t : List ℕ)
      → AreWords args
      → bounded_int (suc m) args (kept init m t) ≡ (int_arg args >>= after init m t)
  unfolding bounded_int int_arg after signed_decimal decimal
  bounded_int-kept [] t words = refl
  bounded_int-kept (text s ∷ args) t words = refl
  bounded_int-kept (null ∷ args) t words = refl
  bounded_int-kept (word n ∷ args) t (small, words) = elim (Option-cases (magnitude n)) [
    | inl e ↦ rw e refl
    | inr (v, e) ↦
        let digits = numeral 10 dec_char 10 v in
        let copied = copy_digits-kept init m room digits in
        let tmp = decimal_digits v (magnitude-lt n v small e) in
        elim (Bool-cases (negative n)) [
          | inr p ↦ rw (e, p, tmp, copied t) refl
          | inl p ↦
              let t' = t ++ (b'-' ∷ []) in
              elim (Bool-cases (ltb (length t) m)) [
                | inl more ↦
                    rw
                      (
                        e,
                        p,
                        tmp,
                        room_test init m t,
                        more,
                        emit-kept init m room t b'-' (ground (arith, more)),
                        copied t',
                        add_last t b'-' digits,
                      )
                      refl
                | inr full ↦
                    let f : m ≤ length t = ground (arith, full) in
                    rw
                      (
                        e,
                        p,
                        tmp,
                        room_test init m t,
                        full,
                        copied t,
                        kept_full init m t digits f,
                        kept_full init m t (b'-' ∷ digits) f,
                      )
                      refl
              ]
        ]
  ]

  pub bounded_convert-kept :
      (d : ℕ) (args : List Arg) (t : List ℕ)
      → AreWords args
      → length t < m
      → bounded_convert (suc m) d args (kept init m t) ≡ (bounded_meaning d args >>= after init m t)
  unfolding bounded_convert bounded_meaning
  bounded_convert-kept d args t words h =
      let P = λ (means : Option (List ℕ × List Arg)) (does : Option (Out × List Arg)).
        does ≡ (means >>= after init m t) in
      if_both P (d == b's') (bounded_text-kept args t) (
        if_both P (d == b'd') (bounded_int-kept args t words) (
          if_both P (d == b'x') (bounded_hex-kept args t words) (
            if_both P (d == b'c') (put_char-kept args t h) (
              if_both P (d == b'%') (rw (emit-kept init m room t b'%' h) (unfold after in refl))
                (rw (bounded_unknown-kept d t h) (unfold after in refl))))))
