-- ===== src/Libc/Printf/Overrun.antt =====
-- Formats of plain text with one conversion at the end, in `vprintf` of libc/src/stdio.c: numbers
-- that do not fit its array, and hexadecimal numbers behind a text.
use reta_os.Prelude.{
  ℕ, zero, suc, ◌+◌, ◌*◌, ◌%◌, ◌/◌, ◌^◌, ◌≤◌, ◌<◌, ◌≡◌, ◌≢◌, refl, ap, ◌∙◌, not, ◌&&◌, ◌||◌, true,
  false, some, none, inl, inr, List, [], ◌∷◌, ◌++◌, arith, ltb, leb, ◌==◌, Option-cases, length,
  drop, length-append, length-drop, length-set, take_all, append-nil, add_last, length-add_last,
}
use reta_os.Prelude.Maybe.{◌>>=◌}
use reta_os.Text.Numerals.{
  upper_hex_char, dec_char, fixed_hex, fixed_hex-first, length-fixed_hex, numeral,
}
use reta_os.Text.Expand.{Arg, word, negative, magnitude, decimal}
use reta_os.Libc.Buffer.{Out, emit, emit_all}
use reta_os.Libc.Printf.{put_int, put_nibbles, put_hex, convert, print_loop, vprintf}
use reta_os.Libc.Bounded.{kept, emit-kept}
use reta_os.Libc.Printf.Conversions.{num_str}
use reta_os.Libc.Printf.Prints.{written, print_loop-plain, print_loop-convert}

-- No conversion, and no end before the last byte.
abbrev pub IsPlain : List ℕ → Type 0
IsPlain [] = Unit {0}
IsPlain (c ∷ s) = (c ≢ b'%') × (c ≢ 0) × IsPlain s

length-emit :
    (o e : Out) (c : ℕ) → emit o c ≡ some e → (length e.buf ≡ length o.buf) × (e.pos ≡ o.pos + 1)
unfolding emit
length-emit o e c h = ground (arith, h, length-set o.buf o.pos c)

-- Bytes and the 0 behind them that go beyond the end of the array.
emit_all-overruns :
    (s : List ℕ) (o : Out)
    → length o.buf ≤ o.pos + length s
    → (do e ← emit_all s o; emit e 0) ≡ none
unfolding emit_all
emit_all-overruns [] o h =
    unfold emit in let out : ltb o.pos (length o.buf) ≡ false = ground (arith, h) in rw out refl
emit_all-overruns (c ∷ s) o h = elim (Option-cases (emit o c)) [
  | inl e ↦ rw e refl
  | inr (next, e) ↦
      let (same, step) = length-emit o next c e in
      rw e (emit_all-overruns s next (omega (arith, h, same, step)))
]

module _ (init : List ℕ) (room : length init ≡ 256) where
  place-kept : (t : List ℕ) → length t ≤ 255 → (kept init 255 t).pos ≡ length t
  unfolding kept
  place-kept t h = ap length (take_all 255 t h)

  length-kept : (t : List ℕ) → length t ≤ 255 → length ((kept init 255 t).buf) ≡ 256
  unfolding kept
  length-kept t h =
      let whole = take_all 255 t h in
      rw whole
        (omega (arith, length-append t (drop (length t) init), length-drop (length t) init, room))

  print_loop-prefix :
      (s t : List ℕ) (e : ℕ) (format : List ℕ) (args : List Arg)
      → IsPlain s
      → length (t ++ s) ≤ 255
      → print_loop (s ++ (e ∷ format)) args (kept init 255 t)
        ≡ print_loop (e ∷ format) args (kept init 255 (t ++ s))
  print_loop-prefix [] t e format args plain h = rw (append-nil t) refl
  print_loop-prefix (c ∷ []) t e format args (p, nul, plain) h =
      print_loop-plain init room c e format args t p nul (omega (arith, h, length-add_last t c))
  print_loop-prefix (c ∷ b ∷ s) t e format args (p, nul, plain) h =
      let later =
        print_loop-prefix (b ∷ s) (t ++ (c ∷ [])) e format args plain
          (rw (add_last t c (b ∷ s)) h) in
      print_loop-plain init room c b (s ++ (e ∷ format)) args t p nul
        (omega (arith, h, length-append t (c ∷ b ∷ s)))
      ∙ rw (add_last t c (b ∷ s)) at later

  -- For a plain text of fewer than 255 bytes and a number below 2^31 behind it, `vprintf` writes
  -- outside its array of 256 bytes if the text and the digits together have at least 256 bytes.
  pub vprintf-overruns :
      (s : List ℕ) (n : ℕ)
      → IsPlain s
      → length s < 255
      → n < 2 ^ 31
      → 256 ≤ length s + length (decimal n)
      → vprintf init (s ++ (b'%' ∷ b'd' ∷ [])) (word n ∷ []) ≡ none
  unfolding vprintf convert put_int magnitude negative print_loop decimal
  vprintf-overruns s n plain short small long =
      let start : kept init 255 [] ≡ record { buf = init; pos = 0 } = unfold kept in refl in
      let before =
        rw start at (print_loop-prefix s [] b'%' (b'd' ∷ []) (word n ∷ []) plain (omega arith)) in
      let o = kept init 255 s in
      let digits = numeral 10 dec_char 10 n in
      let positive : leb (2 ^ 31) n ≡ false = ground (arith, small) in
      let over =
        emit_all-overruns digits o
          (omega (arith, place-kept s (omega arith), length-kept s (omega arith), long)) in
      elim (Option-cases (emit_all digits o)) [
        | inl e ↦
            rw
              (
                before,
                print_loop-convert init room b'd' [] (word n ∷ []) s short,
                positive,
                num_str n (omega arith),
                e,
              )
              refl
        | inr (last, e) ↦
            let out : emit last 0 ≡ none = rw e at over in
            rw
              (
                before,
                print_loop-convert init room b'd' [] (word n ∷ []) s short,
                positive,
                num_str n (omega arith),
                e,
                out,
              )
              refl
      ]

  put_nibbles-behind :
      (left n : ℕ) (t : List ℕ)
      → left ≤ 7
      → 2 < length t
      → length t + left ≤ 255
      → put_nibbles left n (kept init 255 t)
        ≡ some (kept init 255 (t ++ fixed_hex upper_hex_char left n))
  unfolding put_nibbles
  put_nibbles-behind zero n t few behind fits = unfold fixed_hex in rw (append-nil t) refl
  put_nibbles-behind (suc left) n t few behind fits =
      let nibble = n / 2 ^ (4 * left) % 16 in
      let d = upper_hex_char nibble in
      let pos = place-kept t (omega (arith, fits)) in
      let later = ltb left 7 && ltb 2 ((kept init 255 t).pos) in
      let shown : (not (nibble == 0) || (left == 0 || later)) ≡ true =
        ground (arith, few, behind, pos) in
      let rest =
        put_nibbles-behind left n (t ++ (d ∷ [])) (omega arith) (omega (arith, length-add_last t d))
          (omega (arith, length-add_last t d)) in
      rw
        (
          shown,
          emit-kept init 255 room t d (omega (arith, fits)),
          fixed_hex-first upper_hex_char left n,
        )
        (rw (add_last t d (fixed_hex upper_hex_char left n)) at rest)

  skip_nibble :
      (left n : ℕ) (o : Out)
      → 7 ≤ left
      → n / 2 ^ (4 * left) % 16 ≡ 0
      → put_nibbles (suc left) n o ≡ put_nibbles left n o
  unfolding put_nibbles
  skip_nibble left n o far nothing =
      let later = ltb left 7 && ltb 2 o.pos in
      let hidden : (not (n / 2 ^ (4 * left) % 16 == 0) || (left == 0 || later)) ≡ false =
        ground (arith, far, nothing) in
      rw hidden refl

  hex_loop :
      (s : List ℕ) (n : ℕ)
      → 0 < length s
      → length s ≤ 246
      → n < 2 ^ 28
      → (do (o, args) ← convert b'x' (word n ∷ []) (kept init 255 s); print_loop [] args o)
        ≡ some (kept init 255 (s ++ (b'0' ∷ b'x' ∷ fixed_hex upper_hex_char 7 n)))
  unfolding convert put_hex print_loop
  hex_loop s n behind fits small =
      let t = s ++ (b'0' ∷ []) in
      let u = t ++ (b'x' ∷ []) in
      let first = emit-kept init 255 room s b'0' (omega arith) in
      let second = emit-kept init 255 room t b'x' (omega (arith, length-add_last s b'0')) in
      let long : length u ≡ length s + 2 =
        omega (arith, length-add_last s b'0', length-add_last t b'x') in
      let zero_nibble : n / 2 ^ 28 % 16 ≡ 0 = omega arith in
      let rest =
        put_nibbles-behind 7 n u (omega arith) (omega (arith, long)) (omega (arith, long)) in
      let joined : u ++ fixed_hex upper_hex_char 7 n
          ≡ s ++ (b'0' ∷ b'x' ∷ fixed_hex upper_hex_char 7 n) =
        add_last t b'x' (fixed_hex upper_hex_char 7 n)
        ∙ add_last s b'0' (b'x' ∷ fixed_hex upper_hex_char 7 n) in
      rw (first, second, skip_nibble 7 n (kept init 255 u) (omega arith) zero_nibble, rest, joined)
        refl

  -- Behind a plain text that is not empty and has at most 246 bytes, `vprintf` prints by `%x` a
  -- number below 2^28 in seven digits, with zeros in front of it.
  vprintf-hex_behind :
      (s : List ℕ) (n : ℕ)
      → IsPlain s
      → 0 < length s
      → length s ≤ 246
      → n < 2 ^ 28
      → (let made = s ++ (b'0' ∷ b'x' ∷ fixed_hex upper_hex_char 7 n) in
          vprintf init (s ++ (b'%' ∷ b'x' ∷ [])) (word n ∷ []) ≡ some (made, length made))
  vprintf-hex_behind s n plain behind fits small =
      let digits = fixed_hex upper_hex_char 7 n in
      let made = s ++ (b'0' ∷ b'x' ∷ digits) in
      let size : length made ≤ 255 =
        omega
          (arith, length-append s (b'0' ∷ b'x' ∷ digits), length-fixed_hex upper_hex_char 7 n) in
      written init room (s ++ (b'%' ∷ b'x' ∷ [])) (word n ∷ []) made size (
        print_loop-prefix s [] b'%' (b'x' ∷ []) (word n ∷ []) plain (omega arith)
        ∙ (print_loop-convert init room b'x' [] (word n ∷ []) s (omega arith)
            ∙ hex_loop s n behind fits small))
