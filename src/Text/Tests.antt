-- ===== src/Text/Tests.antt =====
-- The theorems on kernel/string.c at concrete strings.
use reta_os.Prelude.{ℕ, ◌≡◌, List, [], ◌∷◌, arith}
use reta_os.Text.{tolower, toupper}
use reta_os.Text.Compare.{IsText}
use reta_os.Text.Copy.{tolower-toupper}

abbrev path : List ℕ
path = b'a' ∷ b'/' ∷ b'b' ∷ []

path-IsText : IsText path
path-IsText = (λ e. omega arith, (λ e. omega arith, (λ e. omega arith, tt)))

tolower-toupper_example : tolower (toupper b'q') ≡ tolower b'q'
tolower-toupper_example = tolower-toupper b'q'
