-- ===== src/Syscalls/Dispatch.antt =====
-- The table of system calls of kernel/syscalls.c behind `syscalls_init`.
use reta_os.Prelude.{
  ℕ, zero, suc, ◌≡◌, refl, ap, ◌≢◌, ◌≤◌, ◌<◌, true, false, Option, none, some, [], ◌∷◌, ltb, leb,
  get_or, set, length, arith, Bool-cases, inl, inr,
}
use reta_os.Syscalls.{Handler, SyscallTable, max_syscalls, syscall_register, syscall_dispatch}

get_or-set :
    (table : SyscallTable) (i : ℕ) (h : Option Handler)
    → i < length table
    → get_or (set table i h) i none ≡ h
get_or-set [] i h inside = absurd (omega (arith, inside))
get_or-set (x ∷ table) zero h inside = refl
get_or-set (x ∷ table) (suc i) h inside = get_or-set table i h (omega (arith, inside))

get_or-set_ne :
    (table : SyscallTable) (i j : ℕ) (h : Option Handler)
    → i ≢ j
    → get_or (set table i h) j none ≡ get_or table j none
get_or-set_ne [] i j h other = refl
get_or-set_ne (x ∷ table) zero zero h other = absurd (other refl)
get_or-set_ne (x ∷ table) zero (suc j) h other = refl
get_or-set_ne (x ∷ table) (suc i) zero h other = refl
get_or-set_ne (x ∷ table) (suc i) (suc j) h other =
    get_or-set_ne table i j h (λ e. other (ap suc e))

-- A registered number is dispatched to its handler, the others as before; a number that is too large
-- is neither registered nor dispatched.
syscall_dispatch-syscall_register :
    (num : ℕ) (h : Handler) (table : SyscallTable)
    → length table ≡ max_syscalls
    → (num < max_syscalls → syscall_dispatch (syscall_register num h table) num ≡ some h)
      × ((other : ℕ)
          → num ≢ other
          → syscall_dispatch (syscall_register num h table) other ≡ syscall_dispatch table other)
      × (max_syscalls ≤ num
          → (syscall_register num h table ≡ table) × (syscall_dispatch table num ≡ none))
unfolding syscall_dispatch syscall_register
syscall_dispatch-syscall_register num h table size = (
  λ small.
      let known : ltb num max_syscalls ≡ true = ground (arith, small) in
      let in_range : leb max_syscalls num ≡ false = ground (arith, small) in
      rw (known, in_range) (get_or-set table num (some h) (omega (arith, size, small))),
  λ other differ. elim (Bool-cases (ltb num max_syscalls)) [
    | inl known ↦ rw (known, get_or-set_ne table num other (some h) differ) refl
    | inr unknown ↦ rw unknown refl
  ],
  λ large.
      let unknown : ltb num max_syscalls ≡ false = ground (arith, large) in
      let out : leb max_syscalls num ≡ true = ground (arith, large) in
      (rw unknown refl, rw out refl),
)
