-- ===== src/Libc/Bounded/Loop.antt =====
-- The loop of `vsnprintf` of libc/src/stdio.c against the text that its format and arguments stand for.
use reta_os.Prelude.{
  ℕ, suc, ◌+◌, ◌≡◌, ◌≢◌, refl, sym, true, false, some, inl, inr, List, [], ◌∷◌, ◌++◌, arith, ltb,
  ◌==◌, Bool-cases, length, take, drop, length-append, length-take, take_nil, append_assoc,
  append-nil, set-split, add_last, drop-cons,
}
use mathlib.Core.Option.{some-injective}
use reta_os.Text.Compare.{IsText}
use reta_os.Text.Expand.{Arg, expand}
use reta_os.Libc.Buffer.{emit}
use reta_os.Libc.{bounded_loop, vsnprintf}
use reta_os.Text.Meaning.{HasWords-some, AreWords, expand_plain, expand_convert}
use reta_os.Libc.Meaning.{bounded_meaning, bounded_meaning-HasWords}
use reta_os.Libc.Bounded.{kept, kept_full, room_test, emit-kept}
use reta_os.Libc.Bounded.Conversions.{after, bounded_convert-kept}

module _ (init : List ℕ) (m : ℕ) (room : length init ≡ suc m) where
  loop-full :
      (format : List ℕ) (args : List Arg) (t : List ℕ)
      → ltb (length t) m ≡ false
      → bounded_loop (suc m) format args (kept init m t) ≡ some (kept init m t)
  unfolding bounded_loop
  loop-full [] args t full = refl
  loop-full (f ∷ []) args t full = elim (Bool-cases (f == 0)) [
    | inl e ↦ rw (room_test init m t, full, e) refl
    | inr e ↦ rw (room_test init m t, full, e) refl
  ]
  loop-full (f ∷ d ∷ format) args t full = elim (Bool-cases (f == 0)) [
    | inl e ↦ rw (bounded_loop, room_test init m t, full, e) refl
    | inr e ↦ rw (bounded_loop, room_test init m t, full, e) refl
  ]

  -- A conversion in the loop, with room for a byte.
  loop-convert :
      (f d : ℕ) (format : List ℕ) (args : List Arg) (t : List ℕ) (r : List ℕ × List Arg)
      → (f == b'%') ≡ true
      → d ≢ 0
      → ltb (length t) m ≡ true
      → AreWords args
      → bounded_meaning d args ≡ some r
      → bounded_loop (suc m) (f ∷ d ∷ format) args (kept init m t)
        ≡ bounded_loop (suc m) format (r.1) (kept init m (t ++ r.0))
  unfolding bounded_loop after
  loop-convert f d format args t r p nul more words means =
      let going : (f == 0) ≡ false = ground (arith, p) in
      let on : (d == 0) ≡ false = ground (arith, nul) in
      let converted = bounded_convert-kept init m room d args t words (ground (arith, more)) in
      rw (bounded_loop, room_test init m t, more, going, p, on, converted, means) refl

  loop-plain :
      (f d : ℕ) (format : List ℕ) (args : List Arg) (t : List ℕ)
      → (f == b'%') ≡ false
      → f ≢ 0
      → ltb (length t) m ≡ true
      → bounded_loop (suc m) (f ∷ d ∷ format) args (kept init m t)
        ≡ bounded_loop (suc m) (d ∷ format) args (kept init m (t ++ (f ∷ [])))
  unfolding bounded_loop
  loop-plain f d format args t p nul more =
      let going : (f == 0) ≡ false = ground (arith, nul) in
      rw
        (
          bounded_loop,
          room_test init m t,
          more,
          going,
          p,
          emit-kept init m room t f (ground (arith, more)),
        )
        refl

  bounded_loop-kept :
      (format : List ℕ) (args : List Arg) (t made : List ℕ)
      → IsText format
      → AreWords args
      → expand bounded_meaning (some []) format args ≡ some made
      → bounded_loop (suc m) format args (kept init m t) ≡ some (kept init m (t ++ made))
  unfolding expand
  bounded_loop-kept [] args t made good words e =
      let nothing : made ≡ [] = some-injective _ _ (sym e) in
      unfold bounded_loop in rw (nothing, append-nil t) refl
  bounded_loop-kept (f ∷ []) args t made (nul, good) words e =
      let going : (f == 0) ≡ false = ground (arith, nul) in
      elim (Bool-cases (ltb (length t) m)) [
        | inr full ↦
            rw (loop-full (f ∷ []) args t full, kept_full init m t made (ground (arith, full))) refl
        | inl more ↦ elim (Bool-cases (f == b'%')) [
          | inl p ↦
              let nothing : made ≡ [] = some-injective _ _ (sym (rw p at e)) in
              unfold bounded_loop in
              rw (room_test init m t, more, going, p, nothing, append-nil t) refl
          | inr p ↦
              let one : made ≡ f ∷ [] = some-injective _ _ (sym (rw p at e)) in
              unfold bounded_loop in
              rw
                (
                  room_test init m t,
                  more,
                  going,
                  p,
                  one,
                  emit-kept init m room t f (ground (arith, more)),
                )
                refl
        ]
      ]
  bounded_loop-kept (f ∷ d ∷ format) args t made (nul, (nul2, good)) words e =
      elim (Bool-cases (ltb (length t) m)) [
        | inr full ↦
            rw
              (
                loop-full (f ∷ d ∷ format) args t full,
                kept_full init m t made (ground (arith, full)),
              )
              refl
        | inl more ↦ elim (Bool-cases (f == b'%')) [
          | inr p ↦
              let (rest, found, whole) =
                expand_plain bounded_meaning (some []) f d format args made p e in
              rw (loop-plain f d format args t p nul more, whole)
                (rw (add_last t f rest) at (
                  bounded_loop-kept (d ∷ format) args (t ++ (f ∷ [])) rest (nul2, good) words
                    found))
          | inl p ↦
              let (r, means, rest, found, whole) =
                expand_convert bounded_meaning (some []) f d format args made p e in
              rw (loop-convert f d format args t r p nul2 more words means, whole)
                (rw (append_assoc t r.0 rest) at (
                  bounded_loop-kept format r.1 (t ++ r.0) rest good
                    (HasWords-some _ r (bounded_meaning-HasWords d args words) means) found))
        ]
      ]

  pub emit_end :
      (t : List ℕ)
      → emit (kept init m t) 0
        ≡ some (record {
          buf = take m t ++ (0 ∷ drop (suc (length (take m t))) init);
          pos = length (take m t) + 1;
        })
  unfolding kept emit
  emit_end t =
      let front = take m t in
      let (r, split) = drop-cons (length front) init (omega (arith, length-take m t, room)) in
      let behind = drop (suc (length front)) init in
      let inside : ltb (length front) (length (front ++ (r ∷ behind))) ≡ true =
        ground (arith, length-append front (r ∷ behind)) in
      rw (split, inside, set-split front r behind 0) refl

  -- `vsnprintf` with the size of its buffer never writes outside it and always ends the text: of
  -- the text that the format makes of its arguments it writes what fits in front of the last
  -- byte, then a 0, and it leaves the bytes behind it. The result is the number of the bytes
  -- written in front of the 0. The format has no 0 before its end, the words among the arguments
  -- have 32 bits, and the text is defined: the arguments fit the conversions, and no `%d` is
  -- given the least `int`.
  pub vsnprintf-cuts :
      (format : List ℕ) (args : List Arg) (made : List ℕ)
      → IsText format
      → AreWords args
      → expand bounded_meaning (some []) format args ≡ some made
      → vsnprintf init (suc m) format args
        ≡ some (take m made ++ (0 ∷ drop (suc (length (take m made))) init), length (take m made))
  unfolding vsnprintf
  vsnprintf-cuts format args made good words e =
      let start : kept init m [] ≡ record { buf = init; pos = 0 } =
        unfold kept in rw (take_nil {A = ℕ} m) refl in
      let looped = bounded_loop-kept format args [] made good words e in
      let sized : (suc m == 0) ≡ false = ground arith in
      rw (sized, rw start at looped, emit_end made) (unfold kept in refl)
