-- ===== src/Text/Compare.antt =====
-- `strcmp` and `strncmp` of kernel/string.c against equality of strings.
use reta_os.Prelude.{ℕ, zero, suc, ◌≡◌, refl, ◌≢◌, ◌↔◌, List, [], ◌∷◌, arith, take}
use reta_os.Prelude.Int.{ℤ, pos, negsuc, sub_ℕ}
use reta_os.Text.{strcmp, strncmp}

-- No byte before the terminator is 0.
abbrev pub IsText : List ℕ → Type 0
IsText [] = Unit {0}
IsText (c ∷ s) = (c ≢ 0) × IsText s

pub strcmp_self : (s : List ℕ) → strcmp s s ≡ pos 0
unfolding strcmp
strcmp_self [] = refl
strcmp_self (a ∷ s) = ground (arith, strcmp_self s)

eq_of_strcmp : (s t : List ℕ) → IsText s → IsText t → strcmp s t ≡ pos 0 → s ≡ t
unfolding strcmp
eq_of_strcmp [] [] hs ht e = refl
eq_of_strcmp [] (b ∷ t) hs ht e = absurd (ht.0 (ground arith))
eq_of_strcmp (a ∷ s) [] hs ht e = absurd (hs.0 (ground arith))
eq_of_strcmp (a ∷ s) (b ∷ t) hs ht e = ground (arith, eq_of_strcmp s t hs.1 ht.1)

-- On strings without a 0 among their bytes `strcmp` returns 0 exactly if they are equal.
strcmp_iff : (s t : List ℕ) → IsText s → IsText t → (strcmp s t ≡ pos 0) ↔ (s ≡ t)
strcmp_iff s t hs ht = (eq_of_strcmp s t hs ht, λ e. rw e (strcmp_self t))

-- The other sign.
abbrev pub negate : ℤ → ℤ
negate (pos zero) = pos 0
negate (pos (suc n)) = negsuc n
negate (negsuc n) = pos (suc n)

sub_ℕ-swap : (a b : ℕ) → sub_ℕ b a ≡ negate (sub_ℕ a b)
sub_ℕ-swap a b = ground arith

-- The result of `strcmp` changes its sign when the strings are exchanged.
strcmp-swap : (s t : List ℕ) → strcmp t s ≡ negate (strcmp s t)
unfolding strcmp
strcmp-swap [] [] = refl
strcmp-swap [] (b ∷ t) = sub_ℕ-swap 0 b
strcmp-swap (a ∷ s) [] = sub_ℕ-swap a 0
strcmp-swap (a ∷ s) (b ∷ t) = ground (arith, strcmp-swap s t, sub_ℕ-swap a b)

-- `strncmp` compares as `strcmp` compares the strings cut to `n` bytes.
strncmp-take : (s t : List ℕ) (n : ℕ) → strncmp s t n ≡ strcmp (take n s) (take n t)
unfolding strcmp strncmp
strncmp-take s t zero = ground arith
strncmp-take [] [] (suc n) = refl
strncmp-take [] (b ∷ t) (suc n) = refl
strncmp-take (a ∷ s) [] (suc n) = refl
strncmp-take (a ∷ s) (b ∷ t) (suc n) = ground (arith, strncmp-take s t n)
