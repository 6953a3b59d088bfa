-- ===== src/Process/Find.antt =====
-- The table of kernel/process.c: what `process_create` keeps, and what `process_find` finds.
use reta_os.Prelude.{
  ℕ, ◌+◌, ◌^◌, ◌≤◌, ◌<◌, ◌≡◌, refl, ap, ◌≢◌, inl, inr, true, false, Option, none, some, List, [],
  ◌∷◌, ◌==◌, arith, Bool-cases, subst,
}
use reta_os.Vfs.Node.{Ptr, u32}
use reta_os.Process.{
  Process, Table, process_create, find_pid, process_find, fresh, proc_new, pid_of, at, change,
}

-- No process of the list is at the address.
abbrev pub NotAt : Ptr → List Process → Type 0
NotAt a [] = Unit {0}
NotAt a (p ∷ ps) = (p.address ≢ a) × NotAt a ps

-- The numbers fall along the list, from below `n` on, and no two processes are at one address.
unfoldable pub IsNumbered : ℕ → List Process → Type 0
IsNumbered n [] = Unit {0}
IsNumbered n (p ∷ ps) = (p.pid < n) × (p.address ≢ 0) × NotAt p.address ps × IsNumbered p.pid ps

unfoldable pub IsTable : Table → Type 0
IsTable t = IsNumbered t.next_pid t.process_list

find_pid-beyond :
    (n pid : ℕ) (ps : List Process) → IsNumbered n ps → n ≤ pid → find_pid ps pid ≡ none
unfolding find_pid IsNumbered
find_pid-beyond n pid [] numbered h = refl
find_pid-beyond n pid (p ∷ ps) (small, real, apart, numbered) h =
    let other : (p.pid == pid) ≡ false = ground (arith, small, h) in
    rw other (find_pid-beyond p.pid pid ps numbered (omega (arith, small, h)))

-- Where the numbers of the processes fall along the list and no two are at one address, and the
-- counter does not wrap, `process_create` at a new address and with a page directory keeps this
-- so; the number of the child was not in use, `process_find` finds the child by it, with the
-- current process as its parent, and every other number gives what it gave before.
pub process_create-adds :
    (address : Ptr) (t : Table)
    → IsTable t
    → address ≢ 0
    → NotAt address t.process_list
    → t.next_pid + 1 < 2 ^ 32
    → IsTable (process_create true address t).1
      × (process_find (process_create true address t).1 t.next_pid
          ≡ some (fresh address t.next_pid (pid_of (at t.process_list t.current)) proc_new))
      × (process_find t t.next_pid ≡ none)
      × ((pid : ℕ)
          → pid ≢ t.next_pid
          → process_find (process_create true address t).1 pid ≡ process_find t pid)
unfolding IsTable IsNumbered process_create process_find find_pid
process_create-adds address t table real apart small =
    let there : (address == 0) ≡ false = ground (arith, real) in
    let next : u32 (t.next_pid + 1) ≡ t.next_pid + 1 = omega arith in
    let same : (t.next_pid == t.next_pid) ≡ true = ground arith in
    (
      rw (there, next) (omega arith, real, apart, table),
      rw (there, same) refl,
      find_pid-beyond t.next_pid t.next_pid t.process_list table (omega arith),
      λ pid other.
          let differ : (t.next_pid == pid) ≡ false = ground (arith, other) in
          rw (there, differ) refl,
    )

-- `p` is the first process of the list at `a`.
pub data Holds (a : Ptr) (p : Process) : List Process → Type 0 where
  here : {ps : List Process} → (p.address == a) ≡ true → Holds a p (p ∷ ps)
  later :
      {q : Process} {ps : List Process}
      → (q.address == a) ≡ false
      → Holds a p ps
      → Holds a p (q ∷ ps)

some-injective : (p q : Process) → some p ≡ some q → p ≡ q
some-injective p q e = ap (λ (o : Option Process). elim o [ none ↦ p | some x ↦ x ]) e

pub at-Holds : (a : Ptr) (p : Process) (ps : List Process) → at ps a ≡ some p → Holds a p ps
unfolding at
at-Holds a p [] e = absurd (ground (arith, e))
at-Holds a p (q ∷ ps) e = elim (Bool-cases (q.address == a)) [
  | inl at_head ↦
      subst (λ x. Holds a x (q ∷ ps)) (some-injective q p (rw at_head at e)) (here at_head)
  | inr behind ↦ later behind (at-Holds a p ps (rw behind at e))
]

-- The search on a list in which the process at `a` was changed, but not its number.
module _ (f : Process → Process) (keeps : (q : Process) → (f q).pid ≡ q.pid) where
  pub find_pid-change_self :
      {a : Ptr} {p : Process} {ps : List Process} (n : ℕ)
      → Holds a p ps
      → IsNumbered n ps
      → (p.pid < n) × (find_pid (change a f ps) p.pid ≡ some (f p))
  unfolding find_pid change IsNumbered
  find_pid-change_self {p = p} n (here e) (small, real, apart, numbered) =
      let same : (p.pid == p.pid) ≡ true = ground arith in (small, rw (e, keeps p, same) refl)
  find_pid-change_self {p = p} n (later {q = q} e h) (small, real, apart, numbered) =
      let (lt, found_there) = find_pid-change_self q.pid h numbered in
      let differ : (q.pid == p.pid) ≡ false = ground (arith, lt) in
      (omega (arith, lt, small), rw (e, differ) found_there)

  pub find_pid-change_ne :
      {a : Ptr} {p : Process} (pid : ℕ) {ps : List Process}
      → Holds a p ps
      → pid ≢ p.pid
      → find_pid (change a f ps) pid ≡ find_pid ps pid
  unfolding find_pid change
  find_pid-change_ne {p = p} pid (here {ps = ps} e) other =
      let differ : (p.pid == pid) ≡ false = ground (arith, other) in rw (e, keeps p, differ) refl
  find_pid-change_ne pid (later {q = q} e h) other =
      let rest = find_pid-change_ne pid h other in rw (e, rest) refl
