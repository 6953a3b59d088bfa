-- ===== src/Text/Copy.antt =====
-- `strcpy`, `strncpy`, `strrchr` and the case conversions of kernel/string.c.
use reta_os.Prelude.{
  ℕ, zero, suc, ◌≡◌, refl, ap, ◌≢◌, ◌⊎◌, inl, inr, false, ◌&&◌, none, some, List, [], ◌∷◌, ◌++◌,
  arith, ltb, ◌==◌, if◌then◌else◌, Bool-cases, length, get_or, replicate, length-replicate,
}
use reta_os.Text.{strcpy, strncpy, strlen, strrchr, tolower, toupper}
use reta_os.Text.Compare.{IsText}

pub length-strncpy : (s : List ℕ) (n : ℕ) → length (strncpy s n) ≡ n
unfolding strncpy
length-strncpy s zero = ground arith
length-strncpy [] (suc n) = length-replicate {A = ℕ} (suc n) 0
length-strncpy (c ∷ s) (suc n) = ground (arith, length-strncpy s n, length-replicate {A = ℕ} n 0)

get_or-zeros : (n i : ℕ) → get_or {A = ℕ} (replicate n 0) i 0 ≡ 0
get_or-zeros zero i = refl
get_or-zeros (suc n) zero = refl
get_or-zeros (suc n) (suc i) = get_or-zeros n i

-- Of the bytes that `strncpy` writes, each is that of the string as far as the string goes, and 0
-- behind its end.
get_or-strncpy :
    (s : List ℕ) (n i : ℕ)
    → get_or (strncpy s n) i 0 ≡ (if ltb i n && ltb i (strlen s) then get_or s i 0 else 0)
unfolding strncpy strlen
get_or-strncpy s zero i = ground arith
get_or-strncpy [] (suc n) i = ground (arith, get_or-zeros (suc n) i)
get_or-strncpy (c ∷ s) (suc n) zero = ground arith
get_or-strncpy (c ∷ s) (suc n) (suc i) = ground (arith, get_or-strncpy s n i, get_or-zeros n i)

abbrev pub Lacks : ℕ → List ℕ → Type 0
Lacks c [] = Unit {0}
Lacks c (a ∷ s) = (a ≢ c) × Lacks c s

-- In a string without a 0 among its bytes `strrchr` finds the last occurrence of a byte: nothing
-- if the byte does not occur, and otherwise the part of the string from an occurrence on behind
-- which there is none.
strrchr-last :
    (s : List ℕ) (c : ℕ)
    → IsText s
    → ((strrchr s c ≡ none) × Lacks c s)
      ⊎ ((front : List ℕ) × (rest : List ℕ) × (strrchr s c ≡ some (c ∷ rest))
          × (s ≡ front ++ (c ∷ rest))
          × Lacks c rest)
unfolding strrchr
strrchr-last [] c t = inl (refl, tt)
strrchr-last (a ∷ s) c t =
    let going : (a == 0) ≡ false = ground (arith, t.0) in
    elim (strrchr-last s c t.1) [
      | inr (front, rest, e, split, lacks) ↦
          inr (a ∷ front, rest, rw (going, e), ap (λ l. a ∷ l) split, lacks)
      | inl (e, lacks) ↦ elim (Bool-cases (a == c)) [
        | inl here ↦ inr ([], s, rw (going, e, here) (ground arith), ground arith, lacks)
        | inr other ↦ inl (rw (going, e, other), (ground arith, lacks))
      ]
    ]

-- Case conversion goes back and forth on letters, and `tolower` is settled after one step.
pub tolower-toupper : (c : ℕ) → tolower (toupper c) ≡ tolower c
unfolding tolower toupper
tolower-toupper c = ground arith

-- `strcpy` writes the bytes of the string and its 0: what `strncpy` writes for one byte more than its
-- length.
strcpy-strncpy : (s : List ℕ) → strcpy s ≡ strncpy s (suc (strlen s))
unfolding strcpy strncpy strlen
strcpy-strncpy [] = refl
strcpy-strncpy (c ∷ s) = elim (Bool-cases (c == 0)) [
  | inl e ↦ rw e refl
  | inr e ↦ rw e (ap (λ l. c ∷ l) (strcpy-strncpy s))
]
