-- ===== src/Libc/Printf/Prints.antt =====
-- The texts that `vprintf` of libc/src/stdio.c prints where they fit its array.
use reta_os.Prelude.{
  ℕ, suc, ◌≤◌, ◌<◌, ◌≡◌, ◌≢◌, refl, ap, sym, true, false, some, none, inl, inr, List, [], ◌∷◌, ◌++◌,
  arith, ltb, ◌==◌, Bool-cases, length, take, drop, length-append, length-take, take_all,
  append_assoc, append-nil, add_last, length-add_last,
}
use mathlib.Core.Option.{some-injective, none-ne-some}
use reta_os.Prelude.Maybe.{◌>>=◌}
use reta_os.Text.Compare.{IsText}
use reta_os.Text.Expand.{Arg, expand}
use reta_os.Libc.Printf.{convert, print_loop, vprintf}
use reta_os.Text.Meaning.{HasWords-some, AreWords, expand_plain, expand_convert}
use reta_os.Libc.Meaning.{printed_meaning, printed_meaning-HasWords}
use reta_os.Libc.Bounded.{kept, kept_full, emit-kept}
use reta_os.Libc.Bounded.Loop.{emit_end}
use reta_os.Libc.Printf.Conversions.{convert-Printed}

module _ (init : List ℕ) (m : ℕ) where
  -- `pos` in the test of the loop
  place : (t : List ℕ) → ltb ((kept init m t).pos) m ≡ ltb (length t) m
  unfolding kept
  place t = ground (arith, length-take m t)

take_front : (s rest : List ℕ) → take (length s) (s ++ rest) ≡ s
take_front [] rest = refl
take_front (c ∷ s) rest = ap (λ l. c ∷ l) (take_front s rest)

module _ (init : List ℕ) (room : length init ≡ 256) where
  -- The end of `vprintf` behind its loop.
  pub written :
      (format : List ℕ) (args : List Arg) (made : List ℕ)
      → length made ≤ 255
      → print_loop format args (kept init 255 []) ≡ some (kept init 255 made)
      → vprintf init format args ≡ some (made, length made)
  unfolding vprintf
  written format args made fits looped =
      let start : kept init 255 [] ≡ record { buf = init; pos = 0 } = unfold kept in refl in
      let whole : take 255 made ≡ made = take_all 255 made fits in
      let front : take (length made) (made ++ (0 ∷ drop (suc (length made)) init)) ≡ made =
        take_front made (0 ∷ drop (suc (length made)) init) in
      rw (rw start at looped, emit_end init 255 room made) (unfold kept in rw (whole, front) refl)

  fits_left : (t s rest : List ℕ) → length (t ++ (s ++ rest)) ≤ 255 → length (t ++ s) ≤ 255
  fits_left t s rest h =
      omega (arith, h, length-append t (s ++ rest), length-append s rest, length-append t s)

  print_loop-full :
      (format : List ℕ) (args : List Arg) (t : List ℕ)
      → ltb (length t) 255 ≡ false
      → print_loop format args (kept init 255 t) ≡ some (kept init 255 t)
  unfolding print_loop
  print_loop-full [] args t full = refl
  print_loop-full (f ∷ []) args t full = elim (Bool-cases (f == 0)) [
    | inl e ↦ rw (print_loop, place init 255 t, full, e) refl
    | inr e ↦ rw (print_loop, place init 255 t, full, e) refl
  ]
  print_loop-full (f ∷ d ∷ format) args t full = elim (Bool-cases (f == 0)) [
    | inl e ↦ rw (print_loop, place init 255 t, full, e) refl
    | inr e ↦ rw (print_loop, place init 255 t, full, e) refl
  ]

  pub print_loop-plain :
      (f d : ℕ) (format : List ℕ) (args : List Arg) (t : List ℕ)
      → f ≢ b'%'
      → f ≢ 0
      → length t < 255
      → print_loop (f ∷ d ∷ format) args (kept init 255 t)
        ≡ print_loop (d ∷ format) args (kept init 255 (t ++ (f ∷ [])))
  unfolding print_loop
  print_loop-plain f d format args t p nul more =
      let going : (f == 0) ≡ false = ground (arith, nul) in
      let plain : (f == b'%') ≡ false = ground (arith, p) in
      let test : ltb (length t) 255 ≡ true = ground (arith, more) in
      rw (print_loop, place init 255 t, test, going, plain, emit-kept init 255 room t f more) refl

  pub print_loop-convert :
      (d : ℕ) (format : List ℕ) (args : List Arg) (t : List ℕ)
      → length t < 255
      → print_loop (b'%' ∷ d ∷ format) args (kept init 255 t)
        ≡ (do (o, args) ← convert d args (kept init 255 t); print_loop format args o)
  unfolding print_loop
  print_loop-convert d format args t more =
      let test : ltb (length t) 255 ≡ true = ground (arith, more) in
      rw (print_loop, place init 255 t, test) refl

  print_loop-kept :
      (format : List ℕ) (args : List Arg) (t made : List ℕ)
      → IsText format
      → AreWords args
      → expand printed_meaning none format args ≡ some made
      → length (t ++ made) ≤ 255
      → print_loop format args (kept init 255 t) ≡ some (kept init 255 (t ++ made))
  unfolding expand
  print_loop-kept [] args t made good words e fits =
      let nothing : made ≡ [] = some-injective _ _ (sym e) in
      unfold print_loop in rw (nothing, append-nil t) refl
  print_loop-kept (f ∷ []) args t made (nul, good) words e fits =
      let going : (f == 0) ≡ false = ground (arith, nul) in
      elim (Bool-cases (f == b'%')) [
        | inl p ↦ absurd (none-ne-some made (rw p at e))
        | inr p ↦
            let one : made ≡ f ∷ [] = some-injective _ _ (sym (rw p at e)) in
            let more : length t < 255 = omega (arith, length-add_last t f, rw one at fits) in
            let test : ltb (length t) 255 ≡ true = ground (arith, more) in
            unfold print_loop in
            rw (print_loop, place init 255 t, test, going, p, one, emit-kept init 255 room t f more)
              refl
      ]
  print_loop-kept (f ∷ d ∷ format) args t made (nul, (nul2, good)) words e fits =
      elim (Bool-cases (ltb (length t) 255)) [
        | inr full ↦
            rw
              (
                print_loop-full (f ∷ d ∷ format) args t full,
                kept_full init 255 t made (ground (arith, full)),
              )
              refl
        | inl test ↦
            let more : length t < 255 = ground (arith, test) in
            elim (Bool-cases (f == b'%')) [
              | inr p ↦
                  let (rest, found, whole) =
                    expand_plain printed_meaning none f d format args made p e in
                  let later =
                    print_loop-kept (d ∷ format) args (t ++ (f ∷ [])) rest (nul2, good) words found
                      (rw (add_last t f rest, ← whole) fits) in
                  rw (print_loop-plain f d format args t (ground (arith, p)) nul more, whole)
                    (rw (add_last t f rest) at later)
              | inl p ↦
                  let (r, means, rest, found, whole) =
                    expand_convert printed_meaning none f d format args made p e in
                  let percent : f ≡ b'%' = ground (arith, p) in
                  let all : length (t ++ (r.0 ++ rest)) ≤ 255 = rw (← whole) fits in
                  let first =
                    convert-Printed init room d args t words more r means
                      (fits_left t r.0 rest all) in
                  let later =
                    print_loop-kept format r.1 (t ++ r.0) rest good
                      (HasWords-some _ r (printed_meaning-HasWords d args words) means) found
                      (rw (append_assoc t r.0 rest) all) in
                  rw
                    (
                      percent,
                      print_loop-convert d format args t more,
                      first,
                      later,
                      append_assoc t r.0 rest,
                      ← whole,
                    )
                    refl
            ]
      ]

  -- A format that has no 0 before its end, with arguments, of which the words have 32 bits, that
  -- make a text of at most 255 bytes of it, `%x` apart, is printed by `vprintf` as that text, and
  -- the result is its length.
  pub vprintf-prints :
      (format : List ℕ) (args : List Arg) (made : List ℕ)
      → IsText format
      → AreWords args
      → expand printed_meaning none format args ≡ some made
      → length made ≤ 255
      → vprintf init format args ≡ some (made, length made)
  vprintf-prints format args made good words e fits =
      written format args made fits (print_loop-kept format args [] made good words e fits)
