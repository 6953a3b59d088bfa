-- ===== src/Libc/Buffer.antt =====
-- Writing at the end of a text in a buffer, `buf[pos++] = c`, in libc/src/stdio.c.
use reta_os.Prelude.{ℕ, ◌+◌, Option, some, none, List, [], ◌∷◌, ltb, if◌then◌else◌, length, set}
use reta_os.Prelude.Maybe.{◌>>=◌}

-- The buffer and the place of the next byte.
pub record Out : Type 0 where
  pub buf : List ℕ
  pub pos : ℕ

unfoldable pub emit : Out → ℕ → Option Out
emit o c =
    if ltb o.pos (length o.buf)
    then some (record { buf = set o.buf o.pos c; pos = o.pos + 1 })
    else none

-- Bytes one after the other, with no test of the bound.
unfoldable pub emit_all : List ℕ → Out → Option Out
emit_all [] o = some o
emit_all (c ∷ s) o = do o ← emit o c; emit_all s o
