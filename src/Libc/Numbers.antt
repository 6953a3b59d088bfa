-- ===== src/Libc/Numbers.antt =====
-- libc/src/ctype.c and `atoi` of libc/src/stdlib.c.
pub mod RoundTrip
use reta_os.Prelude.{
  ℕ, ◌+◌, ◌-◌, ◌*◌, ◌^◌, ◌&&◌, ◌||◌, Bool, Option, some, none, List, [], ◌∷◌, ◌==◌, ltb, leb,
  if◌then◌else◌,
}
use reta_os.Prelude.Maybe.{◌>>=◌}
use reta_os.Prelude.Int.{ℤ, pos, minus}

unfoldable pub isdigit : ℕ → Bool
isdigit c = leb b'0' c && leb c b'9'

unfoldable pub isalpha : ℕ → Bool
isalpha c = leb b'A' c && leb c b'Z' || leb b'a' c && leb c b'z'

unfoldable pub isalnum : ℕ → Bool
isalnum c = isalpha c || isdigit c

unfoldable pub isspace : ℕ → Bool
isspace c = c == b' ' || leb b'\t' c && leb c b'\r'

-- The loops of `atoi`. In the second one a sum above the greatest `int` has no value in C.
unfoldable pub skip_spaces : List ℕ → List ℕ
skip_spaces [] = []
skip_spaces (c ∷ s) = let rest = skip_spaces s in if c == b' ' then rest else c ∷ s

unfoldable pub read_digits : List ℕ → ℕ → Option ℕ
read_digits [] res = some res
read_digits (c ∷ s) res =
    let next = res * 10 + (c - b'0') in
    let rest = read_digits s next in
    if leb b'0' c && leb c b'9' then (if ltb next (2 ^ 31) then rest else none) else some res

unfoldable pub read_signed : List ℕ → Option ℤ
read_signed [] = some (pos 0)
read_signed (c ∷ s) =
    if c == b'-'
    then (do res ← read_digits s 0; some (minus res))
    else if c == b'+'
    then (do res ← read_digits s 0; some (pos res))
    else (do res ← read_digits (c ∷ s) 0; some (pos res))

unfoldable pub atoi : List ℕ → Option ℤ
atoi nptr = read_signed (skip_spaces nptr)
