-- ===== src/Text.antt =====
-- kernel/string.c, with `strcasecmp` of fs/fat32.c and `strtok_r` of kernel/vfs.c. A `char*` is the
-- list of the bytes from the pointer on, up to the end of the array, where a 0 stands; a 0 before
-- that ends the string as well. A returned pointer is the list from there on.
mod Tests
pub mod Compare
pub mod Copy
pub mod Numerals
pub mod Expand
pub mod Meaning
use reta_os.Prelude.{
  ℕ, zero, suc, ◌+◌, ◌-◌, Bool, true, false, not, ◌&&◌, ◌||◌, Option, none, some, List, [], ◌∷◌,
  leb, ◌==◌, if◌then◌else◌, replicate, drop,
}
use reta_os.Prelude.Int.{ℤ, pos, sub_ℕ}

-- `*s`
abbrev pub head_byte : List ℕ → ℕ
head_byte [] = 0
head_byte (c ∷ s) = c

unfoldable pub strcmp : List ℕ → List ℕ → ℤ
strcmp [] t = sub_ℕ 0 (head_byte t)
strcmp (a ∷ s) [] = sub_ℕ a 0
strcmp (a ∷ s) (b ∷ t) = let rest = strcmp s t in if not (a == 0) && a == b then rest else sub_ℕ a b

-- The third argument is the count `n` of bytes left to compare.
unfoldable pub strncmp : List ℕ → List ℕ → ℕ → ℤ
strncmp s t zero = pos 0
strncmp [] t (suc n) = sub_ℕ 0 (head_byte t)
strncmp (a ∷ s) [] (suc n) = sub_ℕ a 0
strncmp (a ∷ s) (b ∷ t) (suc n) =
    let rest = strncmp s t n in if not (a == 0) && a == b then rest else sub_ℕ a b

-- The `n` bytes that are written to `dest`.
unfoldable pub strncpy : List ℕ → ℕ → List ℕ
strncpy s zero = []
strncpy [] (suc n) = replicate (suc n) 0
strncpy (c ∷ s) (suc n) = let rest = strncpy s n in if c == 0 then replicate (suc n) 0 else c ∷ rest

-- The bytes that are written to `dest`, which has no bound.
unfoldable strcpy : List ℕ → List ℕ
strcpy [] = 0 ∷ []
strcpy (c ∷ s) = let rest = strcpy s in if c == 0 then 0 ∷ [] else c ∷ rest

unfoldable pub strlen : List ℕ → ℕ
strlen [] = 0
strlen (c ∷ s) = if c == 0 then 0 else suc (strlen s)

-- The last occurrence of `c` before the end of the string.
unfoldable pub strrchr : List ℕ → ℕ → Option (List ℕ)
strrchr [] c = none
strrchr (a ∷ s) c =
    let later = strrchr s c in
    let here = if a == c then some (a ∷ s) else none in
    if a == 0 then none else elim later [ some p ↦ some p | none ↦ here ]

-- The inner loops of `strpbrk` and `strspn`: whether `c` is one of the bytes of `accept`.
unfoldable pub accepts : List ℕ → ℕ → Bool
accepts [] c = false
accepts (a ∷ accept) c =
    let rest = accepts accept c in if a == 0 then false else if c == a then true else rest

unfoldable pub strpbrk : List ℕ → List ℕ → Option (List ℕ)
strpbrk [] accept = none
strpbrk (c ∷ s) accept =
    let rest = strpbrk s accept in
    if c == 0 then none else if accepts accept c then some (c ∷ s) else rest

unfoldable pub strspn : List ℕ → List ℕ → ℕ
strspn [] accept = 0
strspn (c ∷ s) accept =
    let rest = suc (strspn s accept) in if c == 0 then 0 else if accepts accept c then rest else 0

unfoldable pub tolower : ℕ → ℕ
tolower c = if leb b'A' c && leb c b'Z' then c + (b'a' - b'A') else c

unfoldable pub toupper : ℕ → ℕ
toupper c = if leb b'a' c && leb c b'z' then c - (b'a' - b'A') else c

unfoldable pub strcasecmp : List ℕ → List ℕ → ℤ
strcasecmp [] t = sub_ℕ (tolower 0) (tolower (head_byte t))
strcasecmp (a ∷ s) [] = sub_ℕ (tolower a) (tolower 0)
strcasecmp (a ∷ s) (b ∷ t) =
    let rest = strcasecmp s t in
    if tolower a == tolower b
    then (if a == 0 then pos 0 else rest)
    else sub_ℕ (tolower a) (tolower b)

-- The bytes of the token that ends at the list `stop`, a part of the first list.
unfoldable pub up_to : List ℕ → ℕ → List ℕ
up_to s zero = []
up_to [] (suc n) = []
up_to (c ∷ s) (suc n) = c ∷ up_to s n

-- The token, which the code ends by a 0 in place of the delimiter, and the new `*saveptr`. The
-- argument is `str`, or the old `*saveptr` where `str` is NULL.
unfoldable pub strtok_r : List ℕ → List ℕ → Option (List ℕ) × List ℕ
strtok_r str delim =
    let token = drop (strspn str delim) str in
    if head_byte token == 0 then (none, token) else (elim (strpbrk token delim) [
      | none ↦ (some (up_to token (strlen token)), drop (strlen token) token)
      | some stop ↦ (some (up_to token (strlen token - strlen stop)), drop 1 stop)
    ])

-- All the tokens that repeated calls return. A call shortens the rest, so the length of the string
-- bounds their number.
unfoldable pub tokens_from : ℕ → List ℕ → List ℕ → List (List ℕ)
tokens_from zero str delim = []
tokens_from (suc n) str delim =
    let (found, save) = strtok_r str delim in
    elim found [ none ↦ [] | some token ↦ token ∷ tokens_from n save delim ]
