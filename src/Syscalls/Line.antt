-- ===== src/Syscalls/Line.antt =====
-- Reading a line from the keyboard in `sys_read` of kernel/syscalls.c.
use reta_os.Prelude.{
  ℕ, zero, suc, ◌≡◌, refl, ◌≢◌, ◌<◌, Option, none, some, List, [], ◌∷◌, ◌++◌, ◌==◌, length, arith,
  Bool-cases, inl, inr, ap, sym, subst,
}
use reta_os.Prelude.Int.{ℤ, pos, negsuc}
use reta_os.Syscalls.{behind, read_line}

-- The keys that are there, without those moments at which there is none.
abbrev pub typed : List ℤ → List ℕ
typed [] = []
typed (negsuc e ∷ keys) = typed keys
typed (pos ch ∷ keys) = ch ∷ typed keys

-- No byte of the list ends a line.
abbrev pub NoEnd : List ℕ → Type 0
NoEnd [] = Unit {0}
NoEnd (c ∷ cs) = (c ≢ b'\n') × NoEnd cs

-- `bytes` is a line of at most `count` bytes: full without an end, or up to an end.
pub data IsLine : (count : ℕ) → List ℕ → Type 0 where
  full : IsLine 0 []
  end : {left : ℕ} → IsLine (suc left) (b'\n' ∷ [])
  more : {left c : ℕ} {cs : List ℕ} → c ≢ b'\n' → IsLine left cs → IsLine (suc left) (c ∷ cs)

-- What comes of reading `count` bytes of what is typed: a line, which the rest of it follows, or
-- waiting, where it has neither enough keys nor an end.
pub data Lines (count : ℕ) (keys : List ℕ) : Option (List ℕ × List ℤ) → Type 0 where
  line :
      (bytes : List ℕ) (left : List ℤ)
      → IsLine count bytes
      → keys ≡ bytes ++ typed left
      → Lines count keys (some (bytes, left))
  waits : length keys < count → NoEnd keys → Lines count keys none

behind-Lines :
    {left ch : ℕ} {keys : List ℕ} {r : Option (List ℕ × List ℤ)}
    → ch ≢ b'\n'
    → Lines left keys r
    → Lines (suc left) (ch ∷ keys) (behind ch r)
behind-Lines {ch = ch} other (line bytes left is_line e) =
    line (ch ∷ bytes) left (more other is_line) (ap (λ l. ch ∷ l) e)
behind-Lines other (waits short none_ends) = waits (omega (arith, short)) (other, none_ends)

-- Reading from the keyboard by `sys_read` either gives a line, which is what was typed up to the
-- first line end or as many bytes as asked for, and leaves exactly what was typed behind it, or
-- it waits, and then fewer bytes than asked for were typed and no line end.
pub read_line-Lines : (count : ℕ) (keys : List ℤ) → Lines count (typed keys) (read_line count keys)
unfolding read_line
read_line-Lines zero keys = line [] keys full refl
read_line-Lines (suc left) [] = waits (omega arith) (record {})
read_line-Lines (suc left) (negsuc e ∷ keys) = read_line-Lines (suc left) keys
read_line-Lines (suc left) (pos ch ∷ keys) =
    let rest = read_line-Lines left keys in
    elim (Bool-cases (ch == b'\n')) [
      | inl e ↦
          let is_end : ch ≡ b'\n' = ground (arith, e) in
          rw e (
            line (ch ∷ []) keys (subst (λ (c : ℕ). IsLine (suc left) (c ∷ [])) (sym is_end) end)
              refl)
      | inr e ↦ rw e (behind-Lines (λ same. absurd (ground (arith, e, same))) rest)
    ]
