-- ===== src/Libc/Bounded.antt =====
-- The writes of `vsnprintf` of libc/src/stdio.c into a buffer with the size that it is given.
pub mod Conversions
pub mod Loop
use reta_os.Prelude.{
  if_both, ℕ, zero, suc, ◌+◌, ◌-◌, ◌%◌, ◌/◌, ◌^◌, ◌≤◌, ◌<◌, ◌≡◌, ◌≢◌, refl, ap, sym, subst, ◌∙◌,
  not, ◌&&◌, Bool, true, false, Option, some, none, inl, inr, List, [], ◌∷◌, ◌++◌, arith, ltb, leb,
  ◌==◌, if◌then◌else◌, Bool-cases, Option-cases, length, set, take, drop, length-append,
  length-take, length-drop, take-append, take_all, take_nil, append_assoc, append-nil, set-split,
  add_last, length-add_last, drop-cons,
}
use mathlib.Core.Option.{some-injective, none-ne-some}
use reta_os.Prelude.Maybe.{◌>>=◌}
use reta_os.Text.{strlen}
use reta_os.Text.Compare.{IsText}
use reta_os.Text.Numerals.{
  dec_char, hex_char, backwards, do_digits, numeral, Fits, backwards-do_digits, numeral_enough,
  Fits-add, Fits-decimal, Fits-hex,
}
use reta_os.Text.Expand.{
  Arg, word, text, null, negative, magnitude, decimal, signed_decimal, expand,
}
use reta_os.Libc.Buffer.{Out, emit}
use reta_os.Libc.{
  copy_text, copy_digits, null_text, bounded_text, bounded_int, bounded_hex, put_char,
  bounded_unknown, bounded_convert, bounded_loop, vsnprintf,
}
use reta_os.Text.Meaning.{int_arg, hex_arg, char_arg, AreWords, magnitude-lt}
use reta_os.Libc.Meaning.{text_arg, bounded_meaning}

module _ (init : List ℕ) (m : ℕ) where
  -- The buffer, first `init` with `m + 1` bytes, after the text `t` has been written to it as far as
  -- it fits in front of the last byte.
  unfoldable pub kept : List ℕ → Out
  kept t = record { buf = take m t ++ drop (length (take m t)) init; pos = length (take m t) }

  pub kept_full : (t s : List ℕ) → m ≤ length t → kept (t ++ s) ≡ kept t
  unfolding kept
  kept_full t s full =
      let none_left : m - length t ≡ 0 = omega arith in
      let same : take m (t ++ s) ≡ take m t =
        take-append m t s ∙ rw none_left (append-nil (take m t)) in
      rw same refl

  -- The test for room in the code.
  pub room_test : (t : List ℕ) → ltb ((kept t).pos + 1) (suc m) ≡ ltb (length t) m
  unfolding kept
  room_test t = ground (arith, length-take m t)

module _ (init : List ℕ) (m : ℕ) (room : length init ≡ suc m) where
  pub emit-kept :
      (t : List ℕ) (c : ℕ)
      → length t < m
      → emit (kept init m t) c ≡ some (kept init m (t ++ (c ∷ [])))
  unfolding kept emit
  emit-kept t c h =
      let whole : take m t ≡ t = take_all m t (omega arith) in
      let longer : length (t ++ (c ∷ [])) ≡ length t + 1 = length-add_last t c in
      let more : take m (t ++ (c ∷ [])) ≡ t ++ (c ∷ []) =
        take_all m (t ++ (c ∷ [])) (omega (arith, longer)) in
      let (r, split) = drop-cons (length t) init (omega (arith, room)) in
      let inside : ltb (length t) (length (t ++ (r ∷ drop (suc (length t)) init))) ≡ true =
        ground (arith, length-append t (r ∷ drop (suc (length t)) init)) in
      let next : length t + 1 ≡ suc (length t) = omega arith in
      rw
        (
          whole,
          more,
          longer,
          split,
          inside,
          set-split t r (drop (suc (length t)) init) c,
          next,
          add_last t c (drop (suc (length t)) init),
        )
        refl

  pub copy_digits-kept :
      (s t : List ℕ) → copy_digits (suc m) s (kept init m t) ≡ some (kept init m (t ++ s))
  unfolding copy_digits
  copy_digits-kept [] t = rw (append-nil t) refl
  copy_digits-kept (c ∷ s) t = elim (Bool-cases (ltb (length t) m)) [
    | inl h ↦
        rw (copy_digits, room_test init m t, h, emit-kept t c (ground (arith, h)))
          (rw (add_last t c s) at (copy_digits-kept s (t ++ (c ∷ []))))
    | inr h ↦
        rw (copy_digits, room_test init m t, h, kept_full init m t (c ∷ s) (ground (arith, h))) refl
  ]

  pub copy_text-kept :
      (s t : List ℕ)
      → copy_text (suc m) s (kept init m t) ≡ some (kept init m (t ++ take (strlen s) s))
  unfolding copy_text strlen
  copy_text-kept [] t = rw (append-nil t) refl
  copy_text-kept (c ∷ s) t = elim (Bool-cases (c == 0)) [
    | inl e ↦ rw (copy_text, e, append-nil t) refl
    | inr e ↦ elim (Bool-cases (ltb (length t) m)) [
      | inl h ↦
          rw (copy_text, room_test init m t, e, h, emit-kept t c (ground (arith, h)))
            (rw (add_last t c (take (strlen s) s)) at (copy_text-kept s (t ++ (c ∷ []))))
      | inr h ↦
          rw
            (
              copy_text,
              room_test init m t,
              e,
              h,
              kept_full init m t (c ∷ take (strlen s) s) (ground (arith, h)),
            )
            refl
    ]
  ]
