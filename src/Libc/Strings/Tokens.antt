-- ===== src/Libc/Strings/Tokens.antt =====
-- `strtok` of libc/src/string.c against `strtok_r` of kernel/vfs.c.
use reta_os.Prelude.{
  ℕ, zero, suc, ◌-◌, ◌≤◌, ◌≡◌, refl, sym, ap, ◌∙◌, fun_ext, true, Option, none, some, inl, inr,
  List, [], ◌∷◌, ◌==◌, arith, if◌then◌else◌, Bool-cases, Option-cases, drop,
}
use mathlib.Core.Option.{some-injective, none-ne-some}
use reta_os.Text.{head_byte, accepts, strspn, strpbrk, strlen, up_to, strtok_r, tokens_from}
use reta_os.Libc.Strings.{isdelim, skip_delims, cut_token, saved, next_token, strtok}

isdelim-accepts : (delim : List ℕ) (c : ℕ) → isdelim delim c ≡ accepts delim c
unfolding isdelim accepts
isdelim-accepts [] c = refl
isdelim-accepts (d ∷ delim) c = rw (isdelim-accepts delim c) refl

skip_delims-drop : (delim s : List ℕ) → skip_delims delim s ≡ drop (strspn s delim) s
unfolding skip_delims strspn
skip_delims-drop delim [] = refl
skip_delims-drop delim (c ∷ s) = elim (Bool-cases (c == 0)) [
  | inl e ↦ rw e refl
  | inr e ↦ elim (Bool-cases (accepts delim c)) [
    | inl a ↦ rw (e, isdelim-accepts delim c, a) (skip_delims-drop delim s)
    | inr a ↦ rw (e, isdelim-accepts delim c, a) refl
  ]
]

-- What the two find in a token that has been started.
abbrev part_at : List ℕ → Option (List ℕ) → List ℕ × List ℕ
part_at token none = (up_to token (strlen token), drop (strlen token) token)
part_at token (some stop) = (up_to token (strlen token - strlen stop), drop 1 stop)

strlen-strpbrk : (s delim stop : List ℕ) → strpbrk s delim ≡ some stop → strlen stop ≤ strlen s
unfolding strpbrk strlen
strlen-strpbrk [] delim stop e = absurd (none-ne-some stop e)
strlen-strpbrk (c ∷ s) delim stop e = elim (Bool-cases (c == 0)) [
  | inl z ↦ absurd (none-ne-some stop (rw z at e))
  | inr z ↦ elim (Bool-cases (accepts delim c)) [
    | inl a ↦ rw (← some-injective _ _ (rw (z, a) at e)) (unfold strlen in omega arith)
    | inr a ↦ rw z (omega (arith, strlen-strpbrk s delim stop (rw (z, a) at e)))
  ]
]

strlen-byte : (c : ℕ) (s : List ℕ) → strlen (c ∷ s) ≡ (if c == 0 then 0 else suc (strlen s))
unfolding strlen
strlen-byte c s = refl

strpbrk-byte :
    (c : ℕ) (s delim : List ℕ)
    → strpbrk (c ∷ s) delim
      ≡ (if c == 0 then none else if accepts delim c then some (c ∷ s) else strpbrk s delim)
unfolding strpbrk
strpbrk-byte c s delim = refl

-- One byte more in front, where the token goes on behind it.
longer :
    (c : ℕ) (s : List ℕ) (found : Option (List ℕ))
    → strlen (c ∷ s) ≡ suc (strlen s)
    → ((stop : List ℕ) → found ≡ some stop → strlen stop ≤ strlen s)
    → part_at (c ∷ s) found ≡ (c ∷ (part_at s found).0, (part_at s found).1)
unfolding up_to
longer c s none size short = rw size refl
longer c s (some stop) size short =
    let more : strlen (c ∷ s) - strlen stop ≡ suc (strlen s - strlen stop) =
      omega (arith, short stop refl, size) in
    rw more refl

cut_token-part_at : (delim s : List ℕ) → cut_token delim s ≡ part_at s (strpbrk s delim)
unfolding cut_token up_to
cut_token-part_at delim [] = unfold strpbrk strlen in refl
cut_token-part_at delim (c ∷ s) =
    let size = strlen-byte c s in
    let found = strpbrk-byte c s delim in
    elim (Bool-cases (c == 0)) [
      | inl z ↦
          let short : strlen (c ∷ s) ≡ 0 = size ∙ rw z refl in
          let none_found : strpbrk (c ∷ s) delim ≡ none = found ∙ rw z refl in
          rw (none_found, short, z) refl
      | inr z ↦
          let long : strlen (c ∷ s) ≡ suc (strlen s) = size ∙ rw z refl in
          elim (Bool-cases (accepts delim c)) [
            | inl a ↦
                let here : strpbrk (c ∷ s) delim ≡ some (c ∷ s) = found ∙ rw (z, a) refl in
                let nothing : strlen (c ∷ s) - strlen (c ∷ s) ≡ 0 = omega arith in
                rw (here, nothing, z, isdelim-accepts delim c, a) refl
            | inr a ↦
                let later : strpbrk (c ∷ s) delim ≡ strpbrk s delim = found ∙ rw (z, a) refl in
                let grows = longer c s (strpbrk s delim) long (strlen-strpbrk s delim) in
                rw (later, grows, z, isdelim-accepts delim c, a, cut_token-part_at delim s) refl
          ]
    ]

-- A `save` of `strtok_r` as one of `strtok`, where no byte is left: NULL.
as_saved : Option (List ℕ) × List ℕ → Option (List ℕ) × Option (List ℕ)
as_saved r = (r.0, saved r.1)

next_token-strtok_r : (delim s : List ℕ) → next_token delim s ≡ as_saved (strtok_r s delim)
unfolding next_token strtok_r as_saved
next_token-strtok_r delim s =
    let token = drop (strspn s delim) s in
    elim (Bool-cases (head_byte token == 0)) [
      | inl z ↦ rw (skip_delims-drop delim s, z) (unfold saved in rw z refl)
      | inr z ↦ elim (Option-cases (strpbrk token delim)) [
        | inl e ↦ rw (skip_delims-drop delim s, z, cut_token-part_at delim token, e) refl
        | inr (stop, e) ↦ rw (skip_delims-drop delim s, z, cut_token-part_at delim token, e) refl
      ]
    ]

-- The token of a call, and those of the calls behind it.
abbrev pub collect : {S : Type 0} → Option (List ℕ) × S → (S → List (List ℕ)) → List (List ℕ)
collect r later = elim r.0 [ none ↦ [] | some token ↦ token ∷ later r.1 ]

-- The tokens that a call with `str` and further calls with NULL return, as many calls as given.
unfoldable pub tokens : ℕ → (str save : Option (List ℕ)) → List ℕ → List (List ℕ)
tokens zero str save delim = []
tokens (suc n) str save delim = collect (strtok str save delim) (λ save'. tokens n none save' delim)

strspn-start : (s delim : List ℕ) → (head_byte s == 0) ≡ true → strspn s delim ≡ 0
unfolding strspn
strspn-start [] delim z = refl
strspn-start (c ∷ s) delim z = rw z refl

no_token :
    (s delim : List ℕ) → (head_byte s == 0) ≡ true → as_saved (strtok_r s delim) ≡ (none, none)
unfolding strtok_r as_saved
no_token s delim z = let start = strspn-start s delim z in rw (start, z) (unfold saved in rw z refl)

strtok-saved : (s delim : List ℕ) → strtok none (saved s) delim ≡ as_saved (strtok_r s delim)
unfolding strtok saved as_saved
strtok-saved s delim = elim (Bool-cases (head_byte s == 0)) [
  | inl z ↦ rw z (sym (no_token s delim z))
  | inr z ↦ rw z (unfold saved as_saved in next_token-strtok_r delim s)
]

-- Both find the same token, and go on with the same rest.
tokens-step :
    (n : ℕ) (s delim : List ℕ) (str save : Option (List ℕ))
    → strtok str save delim ≡ as_saved (strtok_r s delim)
    → ((rest : List ℕ) → tokens n none (saved rest) delim ≡ tokens_from n rest delim)
    → tokens (suc n) str save delim ≡ tokens_from (suc n) s delim
unfolding tokens tokens_from as_saved
tokens-step n s delim str save e rests =
    ap (λ (r : Option (List ℕ) × Option (List ℕ)). collect r (λ save'. tokens n none save' delim)) e
    ∙ ap (collect (strtok_r s delim)) (fun_ext rests)

tokens-saved : (n : ℕ) (s delim : List ℕ) → tokens n none (saved s) delim ≡ tokens_from n s delim
tokens-saved zero s delim = unfold tokens tokens_from in refl
tokens-saved (suc n) s delim =
    tokens-step n s delim none (saved s) (strtok-saved s delim) (λ rest. tokens-saved n rest delim)

-- As many calls of `strtok` as given, the first with a string and the others with NULL, return
-- the tokens that as many calls of `strtok_r` of the kernel find in the string.
pub strtok-strtok_r :
    (n : ℕ) (s delim : List ℕ) (save : Option (List ℕ))
    → tokens n (some s) save delim ≡ tokens_from n s delim
strtok-strtok_r zero s delim save = unfold tokens tokens_from in refl
strtok-strtok_r (suc n) s delim save =
    tokens-step n s delim (some s) save (unfold strtok in next_token-strtok_r delim s)
      (λ rest. tokens-saved n rest delim)
