-- ===== src/Process/Exec.antt =====
-- `process_exec` of kernel/process.c, over the loader of Elf.
use reta_os.Prelude.{
  ℕ, ◌+◌, ◌-◌, ◌^◌, Bool, false, not, ◌||◌, Option, none, some, List, ◌==◌, if◌then◌else◌,
}
use reta_os.Prelude.Int.{ℤ, pos, negsuc, minus}
use reta_os.Vfs.Node.{Vfs, Ptr}
use reta_os.Vfs.Files.{ReadResult, open_file, read, close, size}
use reta_os.Elf.{elf_load}
use reta_os.Process.{Table, UserContext, proc_ready, change}

abbrev pub start_context : (entry : ℕ) → UserContext
start_context entry = record {
  eip = entry;
  esp = 0x003F_F000 + 0x20000 - 16;
  eflags = 0x200;
  cs = 0x23;
  ss = 0x2B;
  ds = 0x2B;
  es = 0x2B;
  fs = 0x2B;
  gs = 0x2B;
}

-- `process_exec` behind `elf_load`, which gives the bytes of a file, at the address `loaded_at`.
pub exec_loaded : Ptr → (loaded_at : ℕ) → Table → Option (List ℕ) × Vfs → ℤ × Table × Vfs
exec_loaded p loaded_at t (none, v) = (minus 1, t, v)
exec_loaded p loaded_at t (some image, v) = (
  pos 0,
  record t {
    process_list =
        change p (λ q. record q { uc = start_context loaded_at; state = proc_ready })
          t.process_list;
  },
  v,
)

-- Equality of signed results, and a result as the unsigned value of the same bits.
abbrev pub same_int : ℤ → ℤ → Bool
same_int (pos a) (pos b) = a == b
same_int (pos a) (negsuc b) = false
same_int (negsuc a) (pos b) = false
same_int (negsuc a) (negsuc b) = a == b

abbrev pub pattern_of : ℤ → ℕ
pattern_of (pos a) = a
pattern_of (negsuc a) = 2 ^ 32 - 1 - a

-- `process_exec` behind `vfs_read`: `memory` tells whether `kmalloc` gives the room that `elf_load`
-- asks for.
pub exec_read :
    ℕ
    → (memory : Bool) → Ptr
    → (loaded_at fd : ℕ) → (size : ℤ) → Table
    → ReadResult
    → Option (ℤ × Table × Vfs)
exec_read fuel memory p loaded_at fd size t (got, bytes, v) =
    let closed = (close v (pos fd)).1 in
    if same_int got size
    then (elim (elf_load fuel memory closed) [
      | none ↦ none
      | some r ↦ some (exec_loaded p loaded_at t r)
    ])
    else some (minus 1, t, closed)

-- `process_exec` behind `vfs_open`; `file_memory` tells whether `kmalloc` gives room for the file.
pub exec_open :
    ℕ
    → (file_memory memory : Bool) → Ptr
    → (loaded_at : ℕ) → Table
    → Option (ℤ × Vfs)
    → Option (ℤ × Table × Vfs)
exec_open fuel file_memory memory p loaded_at t none = none
exec_open fuel file_memory memory p loaded_at t (some (negsuc e, v)) = some (minus 1, t, v)
exec_open fuel file_memory memory p loaded_at t (some (pos fd, v)) =
    let count = pattern_of (size v (pos fd)) in
    if count == 0 || not file_memory
    then some (minus 1, t, (close v (pos fd)).1)
    else exec_read fuel memory p loaded_at fd (size v (pos fd)) t (read v (pos fd) count)

-- `process_exec` of the process at `p`.
pub process_exec :
    ℕ
    → (file_memory memory : Bool) → Ptr
    → (loaded_at : ℕ) → Table
    → Vfs
    → List ℕ
    → Option (ℤ × Table × Vfs)
process_exec fuel file_memory memory p loaded_at t v path =
    exec_open fuel file_memory memory p loaded_at t (open_file fuel v path 0)
