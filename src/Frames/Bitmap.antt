-- ===== src/Frames/Bitmap.antt =====
-- The bit helpers of memory/pmm.c, and the set of used frames that the words stand for.
use reta_os.Prelude.{
  ℕ, zero, suc, ◌*◌, ◌/◌, ◌%◌, ◌^◌, ◌<◌, ◌≡◌, refl, Bool, true, false, not, Option, some, List, [],
  ◌∷◌, arith, ◌==◌, if◌then◌else◌, length, get_elem?, get_or, set, length-set,
}
use reta_os.Prelude.Maybe.{◌>>=◌}
use reta_os.Prelude.Bits.{bit_at, bit_at-le, bit_at-set, bit_at-clear, bit_and_single, all_but}
use native.Mathlib.Nat.{one-le-pow}
use Prim.Native.Nat.{bit_and, bit_or}

unfoldable pub set_frame : List ℕ → ℕ → Option (List ℕ)
set_frame bits f = do
  w ← get_elem? bits (f / 32)
  some (set bits (f / 32) (bit_or w (2 ^ (f % 32))))

unfoldable pub clear_frame : List ℕ → ℕ → Option (List ℕ)
clear_frame bits f = do
  w ← get_elem? bits (f / 32)
  some (set bits (f / 32) (bit_and w (all_but 32 (f % 32))))

unfoldable pub test_frame : List ℕ → ℕ → Option Bool
test_frame bits f = do w ← get_elem? bits (f / 32); some (not (bit_and w (2 ^ (f % 32)) == 0))

-- Whether frame `f` is marked.
unfoldable pub is_used : List ℕ → ℕ → Bool
is_used bits f = bit_at (get_or bits (f / 32) 0) (f % 32) == 1

get_elem?-eq-get_or :
    (bits : List ℕ) (i : ℕ) → i < length bits → get_elem? bits i ≡ some (get_or bits i 0)
get_elem?-eq-get_or [] i h = absurd (omega arith)
get_elem?-eq-get_or (w ∷ bits) zero h = refl
get_elem?-eq-get_or (w ∷ bits) (suc i) h = get_elem?-eq-get_or bits i (omega arith)

get_or-set :
    (bits : List ℕ) (i j v : ℕ)
    → i < length bits
    → get_or (set bits i v) j 0 ≡ (if j == i then v else get_or bits j 0)
get_or-set [] i j v h = absurd (omega arith)
get_or-set (w ∷ bits) zero zero v h = refl
get_or-set (w ∷ bits) zero (suc j) v h = ground arith
get_or-set (w ∷ bits) (suc i) zero v h = ground arith
get_or-set (w ∷ bits) (suc i) (suc j) v h = ground (arith, get_or-set bits i j v)

-- `f` is a frame that the words cover.
abbrev pub Covers : List ℕ → ℕ → Type 0
Covers bits f = f < 32 * length bits

-- The words after `set_frame`, and after `clear_frame`.
pub with_frame : List ℕ → ℕ → List ℕ
with_frame bits f = set bits (f / 32) (bit_or (get_or bits (f / 32) 0) (2 ^ (f % 32)))

pub without_frame : List ℕ → ℕ → List ℕ
without_frame bits f = set bits (f / 32) (bit_and (get_or bits (f / 32) 0) (all_but 32 (f % 32)))

pub length-with_frame : (bits : List ℕ) (f : ℕ) → length (with_frame bits f) ≡ length bits
unfolding with_frame
length-with_frame bits f = length-set bits (f / 32) _

pub length-without_frame : (bits : List ℕ) (f : ℕ) → length (without_frame bits f) ≡ length bits
unfolding without_frame
length-without_frame bits f = length-set bits (f / 32) _

module _ (bits : List ℕ) (f : ℕ) (covered : Covers bits f) where
  -- `test_frame` reads the mark.
  pub test_frame-is_used : test_frame bits f ≡ some (is_used bits f)
  unfolding test_frame is_used
  test_frame-is_used = ground (
    arith,
    get_elem?-eq-get_or bits (f / 32),
    bit_and_single (get_or bits (f / 32) 0) (f % 32),
    bit_at-le (get_or bits (f / 32) 0) (f % 32),
    one-le-pow (f % 32) 2,
  )

  pub set_frame-with_frame : set_frame bits f ≡ some (with_frame bits f)
  unfolding set_frame with_frame
  set_frame-with_frame = ground (arith, get_elem?-eq-get_or bits (f / 32))

  pub clear_frame-without_frame : clear_frame bits f ≡ some (without_frame bits f)
  unfolding clear_frame without_frame
  clear_frame-without_frame = ground (arith, get_elem?-eq-get_or bits (f / 32))

  pub is_used-with_frame :
      (g : ℕ) → is_used (with_frame bits f) g ≡ (if g == f then true else is_used bits g)
  unfolding with_frame is_used
  is_used-with_frame g = ground (
    arith,
    get_or-set bits (f / 32) (g / 32) (bit_or (get_or bits (f / 32) 0) (2 ^ (f % 32))),
    bit_at-set (get_or bits (f / 32) 0) (f % 32) (g % 32),
  )

  pub is_used-without_frame :
      (g : ℕ) → is_used (without_frame bits f) g ≡ (if g == f then false else is_used bits g)
  unfolding without_frame is_used
  is_used-without_frame g = ground (
    arith,
    get_or-set bits (f / 32) (g / 32) (bit_and (get_or bits (f / 32) 0) (all_but 32 (f % 32))),
    bit_at-clear 32 (get_or bits (f / 32) 0) (f % 32) (g % 32),
  )
