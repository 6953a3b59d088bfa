-- ===== src/Keyboard/Keys.antt =====
-- What the handler of scan codes in drivers/keyboard/keyboard.c does to the ring.
use reta_os.Prelude.{
  ℕ, ◌%◌, ◌≡◌, refl, ◌⊎◌, inl, inr, Bool, true, false, ◌||◌, List, [], ◌∷◌, ◌++◌, ltb, leb, ◌==◌,
  if◌then◌else◌, length,
}
use reta_os.Keyboard.{
  Keyboard, push_key, irq_handler, key_pressed, key_released, extended_key, scancode_to_ascii,
}
use reta_os.Keyboard.Ring.{IsRing, push_key-IsRing}

-- The keys of `k` wait, and behind them at most one more.
abbrev pub Grows : List ℕ → Keyboard → Type 0
Grows keys k = IsRing k keys ⊎ ((x : ℕ) × IsRing k (keys ++ x ∷ []))

if-Grows :
    (b : Bool) (keys : List ℕ) (k l : Keyboard)
    → Grows keys k
    → Grows keys l
    → Grows keys (if b then k else l)
if-Grows true keys k l p q = p
if-Grows false keys k l p q = q

-- A state with the same ring.
kept :
    (keys : List ℕ) (k l : Keyboard)
    → l.ring ≡ k.ring
    → l.head ≡ k.head
    → l.tail ≡ k.tail
    → IsRing k keys
    → Grows keys l
kept keys k l e₁ e₂ e₃ r = inl (record {
  size = rw e₁ r.size;
  tail = rw e₃ r.tail;
  room = r.room;
  head = rw (e₂, e₃) r.head;
  held = rw (e₁, e₃) r.held;
})

pushed : (x : ℕ) (keys : List ℕ) (k : Keyboard) → IsRing k keys → Grows keys (push_key x k)
pushed x keys k r = go (ltb (length keys) 127) (push_key-IsRing k x keys r)
  where
    go :
        (b : Bool)
        → IsRing (push_key x k) (if b then keys ++ x ∷ [] else keys)
        → Grows keys (push_key x k)
    go true p = inr (x, p)
    go false p = inl p

key_pressed-Grows :
    (code : ℕ) (keys : List ℕ) (k : Keyboard) → IsRing k keys → Grows keys (key_pressed code k)
unfolding key_pressed
key_pressed-Grows code keys k r =
    let ch = scancode_to_ascii k code in
    if-Grows (code == 0x2A) keys _ _ (kept keys k _ refl refl refl r) (
      if-Grows (code == 0x36) keys _ _ (kept keys k _ refl refl refl r) (
        if-Grows (code == 0x3A) keys _ _ (kept keys k _ refl refl refl r) (
          if-Grows (code == 0x1C) keys _ _ (pushed 10 keys k r)
            (if-Grows (ch == 0) keys _ _ (inl r) (pushed ch keys k r)))))

key_released-Grows :
    (code : ℕ) (keys : List ℕ) (k : Keyboard) → IsRing k keys → Grows keys (key_released code k)
unfolding key_released
key_released-Grows code keys k r =
    if-Grows (code == 0x2A) keys _ _ (kept keys k _ refl refl refl r)
      (if-Grows (code == 0x36) keys _ _ (kept keys k _ refl refl refl r) (inl r))

-- If the ring holds a queue of at most 127 keys, then after any scan code it does so again: the
-- keys that wait stay in their order, and at most one key comes behind them.
pub irq_handler-Grows :
    (sc : ℕ) (keys : List ℕ) (k : Keyboard) → IsRing k keys → Grows keys (irq_handler sc k)
unfolding irq_handler
irq_handler-Grows sc keys k r =
    let release = leb 128 (sc % 256) in
    let code = sc % 128 in
    let plain = record k { e0_pending = false } in
    let plain-IsRing : IsRing plain keys = record {
      size = r.size;
      tail = r.tail;
      room = r.room;
      head = r.head;
      held = r.held;
    } in
    if-Grows (sc == 0xE0) keys _ _ (kept keys k _ refl refl refl r) (
      if-Grows (k.e0_pending) keys _ _
        (if-Grows (release || extended_key code == 0) keys _ _ (inl plain-IsRing)
          (pushed (extended_key code) keys plain plain-IsRing))
        (if-Grows release keys _ _ (key_released-Grows code keys k r)
          (key_pressed-Grows code keys k r)))
