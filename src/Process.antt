-- ===== src/Process.antt =====
-- kernel/process.c: the table of processes. Each process has an address, where the pointers of the
-- code lead; the list spells `process_list` with its `next` pointers, which only ever grows at the
-- front. Page directories, which the file stubs, are left out.
mod Tests
pub mod Find
pub mod Exit
pub mod Exec
use reta_os.Prelude.{
  ℕ, zero, suc, ◌+◌, ◌-◌, ◌%◌, ◌^◌, Bool, true, false, not, ◌&&◌, ◌||◌, Option, none, some, List,
  [], ◌∷◌, ◌==◌, if◌then◌else◌,
}
use reta_os.Prelude.Int.{ℤ, pos, negsuc, minus, is_neg}
use reta_os.Vfs.Node.{Vfs, Ptr, u32}
use reta_os.Vfs.Files.{ReadResult, open_file, read, close, size}

-- `process_state_t`
pub data ProcessState : Type 0 where
  proc_new : ProcessState
  proc_running : ProcessState
  proc_ready : ProcessState
  proc_blocked : ProcessState
  proc_terminated : ProcessState

-- `struct user_context`
pub record UserContext : Type 0 where
  pub eip : ℕ
  pub esp : ℕ
  pub eflags : ℕ
  pub cs : ℕ
  pub ss : ℕ
  pub ds : ℕ
  pub es : ℕ
  pub fs : ℕ
  pub gs : ℕ

abbrev pub zero_context : UserContext
zero_context = record {
  eip = 0;
  esp = 0;
  eflags = 0;
  cs = 0;
  ss = 0;
  ds = 0;
  es = 0;
  fs = 0;
  gs = 0;
}

-- `process_t`
pub record Process : Type 0 where
  pub address : Ptr
  pub pid : ℕ
  pub parent_pid : ℕ
  pub state : ProcessState
  pub uc : UserContext
  pub exit_code : ℤ

-- The static variables; 0 is NULL.
pub record Table : Type 0 where
  pub process_list : List Process
  pub current : Ptr
  pub next_pid : ℕ

abbrev pub is_ready : ProcessState → Bool
is_ready proc_new = false
is_ready proc_running = false
is_ready proc_ready = true
is_ready proc_blocked = false
is_ready proc_terminated = false

-- The process that a pointer leads to.
unfoldable pub at : List Process → Ptr → Option Process
at [] p = none
at (q ∷ qs) p = let rest = at qs p in if q.address == p then some q else rest

-- A change to the process that a pointer leads to.
unfoldable pub change : Ptr → (Process → Process) → List Process → List Process
change p f [] = []
change p f (q ∷ qs) = let rest = change p f qs in if q.address == p then f q ∷ qs else q ∷ rest

-- A new process at an address, its other fields 0.
abbrev pub fresh : Ptr → (pid parent_pid : ℕ) → ProcessState → Process
fresh address pid parent_pid state = record {
  address = address;
  pid = pid;
  parent_pid = parent_pid;
  state = state;
  uc = zero_context;
  exit_code = pos 0;
}

-- `process_init`; `address` is what `kmalloc` returns.
pub process_init : (address : Ptr) → Table → Table
process_init address t = if address == 0 then t else record {
  process_list = fresh address t.next_pid 0 proc_running ∷ [];
  current = address;
  next_pid = u32 (t.next_pid + 1);
}

-- `process_current`
pub process_current : Table → Option Process
process_current t = at t.process_list t.current

abbrev pub pid_of : Option Process → ℕ
pid_of none = 0
pid_of (some p) = p.pid

-- `process_create`: the address of the child, or NULL. `directory` tells whether `clone_directory`
-- gives a page directory.
unfoldable pub process_create : (directory : Bool) → (address : Ptr) → Table → Ptr × Table
process_create directory address t =
    let numbered = record t { next_pid = u32 (t.next_pid + 1) } in
    let child = fresh address t.next_pid (pid_of (at t.process_list t.current)) proc_new in
    if address == 0
    then (0, t)
    else (if not directory
        then (0, numbered)
        else (address, record numbered { process_list = child ∷ t.process_list }))

-- `process_find`
unfoldable pub find_pid : List Process → ℕ → Option Process
find_pid [] pid = none
find_pid (p ∷ ps) pid = let rest = find_pid ps pid in if p.pid == pid then some p else rest

pub process_find : Table → ℕ → Option Process
process_find t pid = find_pid t.process_list pid

-- The states in which `process_block` and `process_unblock` act.
abbrev pub blocked : ProcessState → ProcessState
blocked proc_new = proc_new
blocked proc_running = proc_blocked
blocked proc_ready = proc_blocked
blocked proc_blocked = proc_blocked
blocked proc_terminated = proc_terminated

abbrev pub unblocked : ProcessState → ProcessState
unblocked proc_new = proc_new
unblocked proc_running = proc_running
unblocked proc_ready = proc_ready
unblocked proc_blocked = proc_ready
unblocked proc_terminated = proc_terminated

pub process_block : Ptr → Table → Table
process_block p t = record t {
  process_list = change p (λ q. record q { state = blocked q.state }) t.process_list;
}

pub process_unblock : Ptr → Table → Table
process_unblock p t = record t {
  process_list = change p (λ q. record q { state = unblocked q.state }) t.process_list;
}

-- The registers of the processor that `process_switch` saves.
pub record Registers : Type 0 where
  pub eflags : ℕ
  pub esp : ℕ
  pub ds : ℕ
  pub es : ℕ
  pub fs : ℕ
  pub gs : ℕ

abbrev pub save : Registers → Process → Process
save r p = record p {
  uc = record (p.uc) { eflags = r.eflags; esp = r.esp; ds = r.ds; es = r.es; fs = r.fs; gs = r.gs };
}

-- `process_switch` up to the loading of the registers.
unfoldable pub process_switch : Registers → Process → Table → Table
process_switch r next t = record t {
  process_list = change t.current (save r) t.process_list;
  current = next.address;
}

-- Where control goes: the processor halts for ever, or runs a process.
pub data Control : Type 0 where
  halted : Table → Control
  runs : Process → Table → Control

-- The search of `process_schedule`.
unfoldable pub first_ready : List Process → Option Process
first_ready [] = none
first_ready (p ∷ ps) = let rest = first_ready ps in if is_ready p.state then some p else rest

unfoldable pub process_schedule : Registers → Table → Control
process_schedule r t = elim (first_ready t.process_list) [
  | none ↦ halted t
  | some next ↦ runs next (process_switch r next t)
]

-- A process with the parent that the exit of process `pid` leaves it.
unfoldable pub adopted : ℕ → Process → Process
adopted pid p = record p { parent_pid = if p.parent_pid == pid then 1 else p.parent_pid }

-- The loop of `process_exit` over all processes.
unfoldable pub adopt : ℕ → List Process → List Process
adopt pid [] = []
adopt pid (p ∷ ps) = adopted pid p ∷ adopt pid ps

abbrev pub terminate : ℤ → Process → Process
terminate exit_code p = record p { exit_code = exit_code; state = proc_terminated }

-- The table that `process_exit` leaves before it schedules.
unfoldable pub left_by : ℤ → Process → Table → Table
left_by exit_code p t = record t {
  process_list = adopt p.pid (change t.current (terminate exit_code) t.process_list);
}

-- `process_exit`; without a current process it returns.
unfoldable pub process_exit : Registers → ℤ → Table → Option Control
process_exit r exit_code t = elim (at t.process_list t.current) [
  | none ↦ none
  | some p ↦
      let t' = left_by exit_code p t in
      if p.pid == 1 then some (halted t') else some (process_schedule r t')
]
