-- ===== src/Prelude/Lists.antt =====
-- Lists measured and indexed by native numbers, under the library's names.
use Prim.Native.Nat.{ℕ, zero, suc, ◌+◌, ◌-◌, ◌<◌, ◌≤◌, min}
use mathlib.Core.Path.{◌≡◌, refl, ap, sym, ◌∙◌}
use mathlib.Core.Logic.{◌≢◌}
use mathlib.Core.List.{List, [], ◌∷◌, ◌++◌, map, append_assoc}
use mathlib.Core.Option.{Option, none, some}
use native.Mathlib.Omega.{arith}

module _ {ℓ} {A : Type ℓ} where
  abbrev pub length : List A → ℕ
  length [] = 0
  length (x ∷ xs) = suc (length xs)

  abbrev pub get_elem? : List A → ℕ → Option A
  get_elem? [] i = none
  get_elem? (x ∷ xs) zero = some x
  get_elem? (x ∷ xs) (suc i) = get_elem? xs i

  -- A write out of bounds changes nothing.
  abbrev pub set : List A → ℕ → A → List A
  set [] i v = []
  set (x ∷ xs) zero v = v ∷ xs
  set (x ∷ xs) (suc i) v = x ∷ set xs i v

  pub length-append : (xs ys : List A) → length (xs ++ ys) ≡ length xs + length ys
  length-append [] ys = omega arith
  length-append (x ∷ xs) ys = omega (arith, length-append xs ys)

module _ {ℓ} {A : Type ℓ} where
  pub length-set : (xs : List A) (i : ℕ) (v : A) → length (set xs i v) ≡ length xs
  length-set [] i v = refl
  length-set (x ∷ xs) zero v = refl
  length-set (x ∷ xs) (suc i) v = ap suc (length-set xs i v)

  pub get_elem?-set_self :
      (xs : List A) (i : ℕ) (v : A) → i < length xs → get_elem? (set xs i v) i ≡ some v
  get_elem?-set_self [] i v h = elim h [ ]
  get_elem?-set_self (x ∷ xs) zero v h = refl
  get_elem?-set_self (x ∷ xs) (suc i) v h = get_elem?-set_self xs i v (omega arith)

  pub get_elem?-set_ne :
      (xs : List A) {i j : ℕ} (v : A) → i ≢ j → get_elem? (set xs i v) j ≡ get_elem? xs j
  get_elem?-set_ne [] v h = refl
  get_elem?-set_ne (x ∷ xs) {i = zero} {j = zero} v h = absurd (h refl)
  get_elem?-set_ne (x ∷ xs) {i = zero} {j = suc j} v h = refl
  get_elem?-set_ne (x ∷ xs) {i = suc i} {j = zero} v h = refl
  get_elem?-set_ne (x ∷ xs) {i = suc i} {j = suc j} v h = get_elem?-set_ne xs v (λ e. h (ap suc e))

module _ {ℓ} {A : Type ℓ} where
  abbrev pub get_or : List A → ℕ → A → A
  get_or [] i d = d
  get_or (x ∷ xs) zero d = x
  get_or (x ∷ xs) (suc i) d = get_or xs i d

  abbrev pub take : ℕ → List A → List A
  take zero xs = []
  take (suc n) [] = []
  take (suc n) (x ∷ xs) = x ∷ take n xs

  abbrev pub drop : ℕ → List A → List A
  drop zero xs = xs
  drop (suc n) [] = []
  drop (suc n) (x ∷ xs) = drop n xs

  abbrev pub replicate : ℕ → A → List A
  replicate zero a = []
  replicate (suc n) a = a ∷ replicate n a

  pub take-append-drop : (n : ℕ) (xs : List A) → take n xs ++ drop n xs ≡ xs
  take-append-drop zero xs = refl
  take-append-drop (suc n) [] = refl
  take-append-drop (suc n) (x ∷ xs) = rw (take-append-drop n xs)

  pub length-take : (n : ℕ) (xs : List A) → length (take n xs) ≡ min n (length xs)
  length-take zero xs = omega arith
  length-take (suc n) [] = omega arith
  length-take (suc n) (x ∷ xs) = omega (arith, length-take n xs)

  pub length-drop : (n : ℕ) (xs : List A) → length (drop n xs) ≡ length xs - n
  length-drop zero xs = omega arith
  length-drop (suc n) [] = omega arith
  length-drop (suc n) (x ∷ xs) = omega (arith, length-drop n xs)

  pub length-replicate : (n : ℕ) (a : A) → length (replicate n a) ≡ n
  length-replicate zero a = refl
  length-replicate (suc n) a = ap suc (length-replicate n a)

  pub length-map {κ} : {B : Type κ} (xs : List A) (f : A → B) → length (map f xs) ≡ length xs
  length-map [] f = refl
  length-map (x ∷ xs) f = ap suc (length-map xs f)

module _ {ℓ} {A : Type ℓ} where
  pub take_nil : (n : ℕ) → take {A = A} n [] ≡ []
  take_nil zero = refl
  take_nil (suc n) = refl

  pub drop_nil : (n : ℕ) → drop {A = A} n [] ≡ []
  drop_nil zero = refl
  drop_nil (suc n) = refl

  pub take_all : (n : ℕ) (xs : List A) → length xs ≤ n → take n xs ≡ xs
  take_all n [] h = take_nil n
  take_all zero (x ∷ xs) h = absurd (omega arith)
  take_all (suc n) (x ∷ xs) h = ap (λ l. x ∷ l) (take_all n xs (omega arith))

  pub drop_all : (n : ℕ) (xs : List A) → length xs ≤ n → drop n xs ≡ []
  drop_all n [] h = drop_nil n
  drop_all zero (x ∷ xs) h = absurd (omega arith)
  drop_all (suc n) (x ∷ xs) h = drop_all n xs (omega arith)

  pub take-append :
      (n : ℕ) (xs ys : List A) → take n (xs ++ ys) ≡ take n xs ++ take (n - length xs) ys
  take-append n [] ys = let whole : n - 0 ≡ n = omega arith in rw (take_nil n, whole) refl
  take-append zero (x ∷ xs) ys =
      let nothing : 0 - suc (length xs) ≡ 0 = omega arith in rw nothing refl
  take-append (suc n) (x ∷ xs) ys =
      let same : suc n - suc (length xs) ≡ n - length xs = omega arith in
      rw same (ap (λ l. x ∷ l) (take-append n xs ys))

  pub drop-append :
      (n : ℕ) (xs ys : List A) → drop n (xs ++ ys) ≡ drop n xs ++ drop (n - length xs) ys
  drop-append n [] ys = let whole : n - 0 ≡ n = omega arith in rw (drop_nil n, whole) refl
  drop-append zero (x ∷ xs) ys =
      let nothing : 0 - suc (length xs) ≡ 0 = omega arith in rw nothing refl
  drop-append (suc n) (x ∷ xs) ys =
      let same : suc n - suc (length xs) ≡ n - length xs = omega arith in
      rw same (drop-append n xs ys)

  pub drop-drop : (p a : ℕ) (xs : List A) → drop a (drop p xs) ≡ drop (p + a) xs
  drop-drop zero a xs = ap (λ (k : ℕ). drop k xs) (omega arith)
  drop-drop (suc p) a [] = rw (drop_nil a, drop_nil (suc p + a)) refl
  drop-drop (suc p) a (x ∷ xs) =
      let sum : suc p + a ≡ suc (p + a) = omega arith in rw sum (drop-drop p a xs)

module _ {ℓ} {A : Type ℓ} where
  -- `count` bytes from `offset` on of a file that is the first `size` bytes of its contents.
  abbrev pub part : List A → (size offset count : ℕ) → List A
  part contents size offset count = take count (drop offset (take size contents))

  pub take-drop-take :
      (size offset count : ℕ) (xs : List A)
      → offset + count ≤ size
      → take count (drop offset xs) ≡ part xs size offset count
  take-drop-take size offset zero xs h = refl
  take-drop-take zero offset (suc count) xs h = absurd (omega arith)
  take-drop-take (suc size) zero (suc count) [] h = refl
  take-drop-take (suc size) (suc offset) (suc count) [] h = refl
  take-drop-take (suc size) zero (suc count) (x ∷ xs) h =
      ap (λ l. x ∷ l) (take-drop-take size 0 count xs (omega arith))
  take-drop-take (suc size) (suc offset) (suc count) (x ∷ xs) h =
      take-drop-take size offset (suc count) xs (omega arith)

  pub part-behind :
      (contents : List A) (size offset count : ℕ)
      → size ≤ offset
      → part contents size offset count ≡ []
  part-behind contents size offset count h =
      let gone = drop_all offset (take size contents) (omega (arith, length-take size contents)) in
      rw gone (take_nil count)

  pub part-cut :
      (contents : List A) (size offset count : ℕ)
      → size ≤ length contents
      → size ≤ offset + count
      → part contents size offset (size - offset) ≡ part contents size offset count
  part-cut contents size offset count whole cut =
      let rest = drop offset (take size contents) in
      let long : length rest ≡ size - offset =
        omega (arith, length-drop offset (take size contents), length-take size contents) in
      take_all (size - offset) rest (omega (arith, long))
      ∙ sym (take_all count rest (omega (arith, long)))

module _ {ℓ} {A : Type ℓ} where
  pub set-split :
      (pre : List A) (x : A) (post : List A) (v : A)
      → set (pre ++ (x ∷ post)) (length pre) v ≡ pre ++ (v ∷ post)
  set-split [] x post v = refl
  set-split (a ∷ pre) x post v = ap (λ l. a ∷ l) (set-split pre x post v)

  pub get_elem?-split :
      (pre : List A) (x : A) (post : List A) → get_elem? (pre ++ (x ∷ post)) (length pre) ≡ some x
  get_elem?-split [] x post = refl
  get_elem?-split (a ∷ pre) x post = get_elem?-split pre x post

  pub add_last :
      (pre : List A) (x : A) (post : List A) → (pre ++ (x ∷ [])) ++ post ≡ pre ++ (x ∷ post)
  add_last pre x post = append_assoc pre (x ∷ []) post

  pub length-add_last : (pre : List A) (x : A) → length (pre ++ (x ∷ [])) ≡ length pre + 1
  length-add_last pre x = length-append pre (x ∷ [])

  pub drop-cons :
      (n : ℕ) (xs : List A) → n < length xs → (x : A) × (drop n xs ≡ x ∷ drop (suc n) xs)
  drop-cons n [] h = absurd (omega arith)
  drop-cons zero (x ∷ xs) h = (x, refl)
  drop-cons (suc n) (x ∷ xs) h = drop-cons n xs (omega arith)
