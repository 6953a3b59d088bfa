-- ===== src/Prelude/Maybe.antt =====
-- `do` blocks over Option. In the models `none` is a fault: an access outside an array.
use mathlib.Core.Option.{Option, none, some}

infixl 5 ◌>>=◌
abbrev pub ◌>>=◌ {ℓ κ} : {A : Type ℓ} {B : Type κ} → Option A → (A → Option B) → Option B
none >>= k = none
some a >>= k = k a
