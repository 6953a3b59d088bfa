-- ===== src/Keyboard/Ring.antt =====
-- The ring of drivers/keyboard/keyboard.c against a queue of at most 127 keys.
use reta_os.Prelude.{
  ℕ, zero, suc, ◌+◌, ◌%◌, ◌<◌, ◌≡◌, refl, ap, ◌∙◌, ◌≢◌, inl, inr, true, false, List, [], ◌∷◌, ◌++◌,
  ltb, ◌==◌, if◌then◌else◌, Bool-cases, get_or, set, length, length-set, length-append, arith,
}
use reta_os.Prelude.Int.{pos}
use reta_os.Keyboard.{Keyboard, buf_size, push_key, getkey_nonblock}

-- The keys that wait: from index `at` on stand those of the list.
abbrev pub Holds : List ℕ → ℕ → List ℕ → Type 0
Holds ring at [] = Unit {0}
Holds ring at (x ∷ xs) = (get_or ring at 0 ≡ x) × Holds ring ((at + 1) % buf_size) xs

-- A ring in which the keys of `keys` wait, in this order.
pub record IsRing (k : Keyboard) (keys : List ℕ) : Type 0 where
  pub size : length k.ring ≡ buf_size
  pub tail : k.tail < buf_size
  pub room : length keys < buf_size
  pub head : k.head ≡ (k.tail + length keys) % buf_size
  pub held : Holds k.ring k.tail keys

get_or-set_self : (xs : List ℕ) (i x : ℕ) → i < length xs → get_or (set xs i x) i 0 ≡ x
get_or-set_self [] i x h = absurd (omega arith)
get_or-set_self (y ∷ xs) zero x h = refl
get_or-set_self (y ∷ xs) (suc i) x h = get_or-set_self xs i x (omega arith)

get_or-set_other : (xs : List ℕ) (i j x : ℕ) → i ≢ j → get_or (set xs i x) j 0 ≡ get_or xs j 0
get_or-set_other [] i j x h = refl
get_or-set_other (y ∷ xs) zero zero x h = absurd (h refl)
get_or-set_other (y ∷ xs) zero (suc j) x h = refl
get_or-set_other (y ∷ xs) (suc i) zero x h = refl
get_or-set_other (y ∷ xs) (suc i) (suc j) x h = get_or-set_other xs i j x (λ e. h (ap suc e))

Holds-set :
    (ring : List ℕ) (at h x : ℕ) (keys : List ℕ)
    → length ring ≡ buf_size
    → at < buf_size
    → length keys < buf_size
    → h ≡ (at + length keys) % buf_size
    → Holds ring at keys
    → Holds (set ring h x) at (keys ++ x ∷ [])
Holds-set ring at h x [] size low room e held =
    let same : h ≡ at = omega arith in (rw same (get_or-set_self ring at x (omega arith)), tt)
Holds-set ring at h x (y ∷ keys) size low room e held =
    let other : h ≢ at = λ z. omega arith in
    let step : h ≡ ((at + 1) % buf_size + length keys) % buf_size = omega arith in
    (
      get_or-set_other ring h at x other ∙ held.0,
      Holds-set ring ((at + 1) % buf_size) h x keys size (omega arith) (omega arith) step held.1,
    )

-- If the ring holds a queue of at most 127 keys, `push_key` puts a key behind them, or drops it
-- if 127 keys wait.
pub push_key-IsRing :
    (k : Keyboard) (x : ℕ) (keys : List ℕ)
    → IsRing k keys
    → IsRing (push_key x k) (if ltb (length keys) 127 then keys ++ x ∷ [] else keys)
unfolding push_key
push_key-IsRing k x keys r =
    let low = r.tail in
    let room = r.room in
    let head = r.head in
    elim (Bool-cases (ltb (length keys) 127)) [
      | inl e ↦
          let free : ((k.head + 1) % buf_size == k.tail) ≡ false = ground arith in
          let longer = length-append keys (x ∷ []) in
          rw (e, free)
            (record {
              size = length-set k.ring k.head x ∙ r.size;
              tail = low;
              room = ground (arith, longer);
              head = ground (arith, longer);
              held = Holds-set k.ring k.tail k.head x keys r.size low room head r.held;
            })
      | inr e ↦
          let full : ((k.head + 1) % buf_size == k.tail) ≡ true = ground arith in rw (e, full) r
    ]

-- If the ring holds a queue of at most 127 keys and some key waits, `keyboard_getkey_nonblock`
-- returns the first and leaves the others.
getkey_nonblock-IsRing :
    (k : Keyboard) (x : ℕ) (keys : List ℕ)
    → IsRing k (x ∷ keys)
    → ((getkey_nonblock k).0 ≡ pos x) × IsRing (getkey_nonblock k).1 keys
unfolding getkey_nonblock
getkey_nonblock-IsRing k x keys r =
    let low = r.tail in
    let room = r.room in
    let head = r.head in
    let some_key : (k.head == k.tail) ≡ false = ground arith in
    rw some_key (
      ap pos (r.held.0),
      record {
        size = r.size;
        tail = omega arith;
        room = omega arith;
        head = omega arith;
        held = r.held.1;
      },
    )
