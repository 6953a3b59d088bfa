-- ===== src/Process/Exit.antt =====
-- `process_exit` and `process_schedule` of kernel/process.c.
use reta_os.Prelude.{
  ℕ, ◌≡◌, refl, sym, ap, ◌∙◌, ◌≢◌, inl, inr, false, Option, none, some, List, [], ◌∷◌, ◌==◌, arith,
  if◌then◌else◌, Bool-cases,
}
use reta_os.Prelude.Int.{ℤ}
use reta_os.Vfs.Node.{Ptr}
use reta_os.Process.{
  Process, Table, find_pid, process_find, at, change, adopt, adopted, terminate, left_by,
  process_exit, process_schedule, process_switch, first_ready, is_ready, save, Registers, runs,
  proc_terminated,
}
use reta_os.Process.Find.{IsTable, at-Holds, find_pid-change_self, find_pid-change_ne}

abbrev pub map_process : (Process → Process) → Option Process → Option Process
map_process f none = none
map_process f (some p) = some (f p)

find_pid-adopt :
    (parent pid : ℕ) (ps : List Process)
    → find_pid (adopt parent ps) pid ≡ map_process (adopted parent) (find_pid ps pid)
unfolding find_pid adopt adopted
find_pid-adopt parent pid [] = refl
find_pid-adopt parent pid (p ∷ ps) = elim (Bool-cases (p.pid == pid)) [
  | inl e ↦ rw e refl
  | inr e ↦ rw e (find_pid-adopt parent pid ps)
]

-- No process of the list has that parent.
pub Childless : ℕ → List Process → Type 0
Childless pid [] = Unit {0}
Childless pid (p ∷ ps) = (p.parent_pid ≢ pid) × Childless pid ps

adopted-parent : (pid : ℕ) (p : Process) → pid ≢ 1 → (adopted pid p).parent_pid ≢ pid
unfolding adopted
adopted-parent pid p not_init = elim (Bool-cases (p.parent_pid == pid)) [
  | inl e ↦ rw e (λ one. not_init (sym one))
  | inr e ↦ rw e (λ same. absurd (ground (arith, e, same)))
]

adopt-Childless : (pid : ℕ) (ps : List Process) → pid ≢ 1 → Childless pid (adopt pid ps)
unfolding Childless adopt
adopt-Childless pid [] not_init = record {}
adopt-Childless pid (p ∷ ps) not_init =
    (adopted-parent pid p not_init, adopt-Childless pid ps not_init)

-- Where the numbers of the processes fall along the list and no two are at one address,
-- `process_exit` of a current process other than the first schedules with a table in which that
-- process has the exit code and the state `PROC_TERMINATED`, and is otherwise as before but for
-- the parent 1 if it was its own, no process has it as its parent, and every other process is as
-- before but for the parent 1 if it was its child.
pub process_exit-leaves :
    (r : Registers) (code : ℤ) (t : Table) (p : Process)
    → IsTable t
    → at t.process_list t.current ≡ some p
    → p.pid ≢ 1
    → (process_exit r code t ≡ some (process_schedule r (left_by code p t)))
      × (process_find (left_by code p t) p.pid
          ≡ some (record p {
            exit_code = code;
            state = proc_terminated;
            parent_pid = if p.parent_pid == p.pid then 1 else p.parent_pid;
          }))
      × Childless p.pid (left_by code p t).process_list
      × ((pid : ℕ)
          → pid ≢ p.pid
          → process_find (left_by code p t) pid
            ≡ map_process
                (λ q. record q { parent_pid = if q.parent_pid == p.pid then 1 else q.parent_pid })
                (process_find t pid))
unfolding process_exit process_find left_by adopted IsTable
process_exit-leaves r code t p table running not_init =
    let f = terminate code in
    let holds = at-Holds t.current p t.process_list running in
    let not_one : (p.pid == 1) ≡ false = ground (arith, not_init) in
    let (lt, self) = find_pid-change_self f (λ q. refl) t.next_pid holds table in
    (
      rw (process_exit, running, not_one) refl,
      find_pid-adopt p.pid p.pid (change t.current f t.process_list)
          ∙ ap (map_process (adopted p.pid)) self,
      adopt-Childless p.pid (change t.current f t.process_list) not_init,
      λ pid other.
          find_pid-adopt p.pid pid (change t.current f t.process_list)
          ∙ ap (map_process (adopted p.pid)) (find_pid-change_ne f (λ q. refl) pid holds other),
    )

-- Changes that keep what `process_schedule` looks at.
first_ready-save :
    (r : Registers) (a : Ptr) (p : Process) (ps : List Process)
    → first_ready ps ≡ some p
    → (q : Process) × (first_ready (change a (save r) ps) ≡ some q) × (q.address ≡ p.address)
unfolding first_ready change
first_ready-save r a p [] e = absurd (ground (arith, e))
first_ready-save r a p (q ∷ ps) e = elim (Bool-cases (is_ready q.state)) [
  | inl ready ↦ elim (Bool-cases (q.address == a)) [
    | inl it ↦ (
      save r q,
      rw (it, ready) refl,
      ap (λ (o : Option Process). elim o [ none ↦ 0 | some x ↦ x.address ]) (rw ready at e),
    )
    | inr other ↦ (
      q,
      rw (other, ready) refl,
      ap (λ (o : Option Process). elim o [ none ↦ 0 | some x ↦ x.address ]) (rw ready at e),
    )
  ]
  | inr not_ready ↦
      let (x, found_there, same) = first_ready-save r a p ps (rw not_ready at e) in
      elim (Bool-cases (q.address == a)) [
        | inl it ↦ (p, rw (it, not_ready) (rw not_ready at e), refl)
        | inr other ↦ (x, rw (other, not_ready) found_there, same)
      ]
]

-- If `process_schedule` runs a process, the next call of it runs the process at the same address
-- again, whatever the registers were.
pub process_schedule-again :
    (r r' : Registers) (t : Table) (p : Process)
    → first_ready t.process_list ≡ some p
    → (process_schedule r t ≡ runs p (process_switch r p t))
      × ((q : Process) × (process_schedule r' (process_switch r p t)
            ≡ runs q (process_switch r' q (process_switch r p t)))
          × (q.address ≡ p.address))
unfolding process_schedule process_switch
process_schedule-again r r' t p e =
    let (q, ready, same) = first_ready-save r t.current p t.process_list e in
    (rw (process_schedule, e) refl, (q, rw (process_schedule, ready) refl, same))
