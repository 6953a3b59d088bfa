-- ===== src/Libc/Strings.antt =====
-- The functions of libc/src/string.c that only read strings, and `strtok`. A `char*` is the list of the
-- bytes from it on, as in Text.
pub mod Tokens
pub mod Compare
use reta_os.Prelude.{
  ℕ, zero, suc, ◌+◌, ◌-◌, ◌^◌, Bool, true, false, not, ◌&&◌, Option, none, some, List, [], ◌∷◌,
  ◌==◌, if◌then◌else◌,
}
use reta_os.Prelude.Int.{ℤ, pos, sub_ℕ}
use reta_os.Text.{head_byte}

-- The loop over the delimiters.
unfoldable pub isdelim : List ℕ → ℕ → Bool
isdelim [] c = false
isdelim (d ∷ delim) c =
    let rest = isdelim delim c in if d == 0 then false else if c == d then true else rest

-- The two loops of `strtok`: behind the delimiters in front, and the bytes of the token with what is
-- behind it.
unfoldable pub skip_delims : List ℕ → List ℕ → List ℕ
skip_delims delim [] = []
skip_delims delim (c ∷ s) =
    let rest = skip_delims delim s in
    if c == 0 then c ∷ s else if isdelim delim c then rest else c ∷ s

unfoldable pub cut_token : List ℕ → List ℕ → List ℕ × List ℕ
cut_token delim [] = ([], [])
cut_token delim (c ∷ s) =
    let rest = cut_token delim s in
    let ended : List ℕ × List ℕ = ([], c ∷ s) in
    let cut : List ℕ × List ℕ = ([], s) in
    let longer : List ℕ × List ℕ = (c ∷ rest.0, rest.1) in
    if c == 0 then ended else if isdelim delim c then cut else longer

-- `save`, which is NULL at the end of the string.
unfoldable pub saved : List ℕ → Option (List ℕ)
saved s = if head_byte s == 0 then none else some s

-- What `strtok` does with `save` behind its first line: the token, and the new `save`.
unfoldable pub next_token : List ℕ → List ℕ → Option (List ℕ) × Option (List ℕ)
next_token delim save =
    let s = skip_delims delim save in
    let (token, rest) = cut_token delim s in
    let nothing : Option (List ℕ) × Option (List ℕ) = (none, none) in
    let found : Option (List ℕ) × Option (List ℕ) = (some token, saved rest) in
    if head_byte s == 0 then nothing else found

-- `strtok`, where `none` for `str` is NULL.
unfoldable pub strtok : (str save : Option (List ℕ)) → List ℕ → Option (List ℕ) × Option (List ℕ)
strtok (some str) save delim = next_token delim str
strtok none (some save) delim = next_token delim save
strtok none none delim = (none, none)
