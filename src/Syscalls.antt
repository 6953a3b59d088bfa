-- ===== src/Syscalls.antt =====
-- kernel/syscalls.c: the table of system calls and what the calls do with processes, files and the
-- keyboard. Echoing, and the three calls that draw on the frame buffer, are left out.
mod Tests
pub mod Line
pub mod Dispatch
use reta_os.Prelude.{
  ℕ, zero, suc, ◌+◌, Bool, true, false, not, ◌||◌, Option, none, some, List, [], ◌∷◌, ◌++◌, ltb,
  leb, ◌==◌, if◌then◌else◌, get_or, set, replicate, length,
}
use reta_os.Prelude.Int.{ℤ, pos, negsuc, minus, is_neg}
use reta_os.Vfs.Node.{Vfs, Ptr}
use reta_os.Vfs.Files.{read, write, open_file, close}
use reta_os.Process.Exec.{process_exec}
use reta_os.Process.{
  Process, Table, Registers, Control, process_create, process_current, process_find, process_exit,
}

abbrev pub max_syscalls : ℕ
max_syscalls = 256

-- The handlers.
pub data Handler : Type 0 where
  exit_call : Handler
  fork_call : Handler
  read_call : Handler
  write_call : Handler
  open_call : Handler
  close_call : Handler
  execve_call : Handler
  waitpid_call : Handler
  getpid_call : Handler
  getppid_call : Handler
  sbrk_call : Handler
  fb_getinfo_call : Handler
  fb_fill_call : Handler
  fb_rect_call : Handler

-- `syscall_table`; `none` is a NULL pointer.
abbrev pub SyscallTable : Type 0
SyscallTable = List (Option Handler)

unfoldable pub syscall_register : ℕ → Handler → SyscallTable → SyscallTable
syscall_register num handler table =
    if ltb num max_syscalls then set table num (some handler) else table

-- The choice that `syscall_dispatch` makes: the handler, or `none` where it returns -1.
unfoldable pub syscall_dispatch : SyscallTable → ℕ → Option Handler
syscall_dispatch table num = if leb max_syscalls num then none else get_or table num none

-- `syscalls_init`, with the numbers of `SYS_EXIT` and so on.
unfoldable pub syscalls_init : SyscallTable → SyscallTable
syscalls_init table = syscall_register 242 fb_rect_call (
    syscall_register 241 fb_fill_call (
      syscall_register 240 fb_getinfo_call (
        syscall_register 10 sbrk_call (
          syscall_register 5 close_call (
            syscall_register 4 open_call (
              syscall_register 3 write_call (
                syscall_register 2 read_call (
                  syscall_register 9 getppid_call (
                    syscall_register 8 getpid_call (
                      syscall_register 7 waitpid_call (
                        syscall_register 6 execve_call (
                          syscall_register 1 fork_call
                            (syscall_register 0 exit_call table)))))))))))))

-- `sys_fork`, with the arguments of `process_create`.
unfoldable pub sys_fork : (directory : Bool) → (address : Ptr) → Table → ℤ × Table
sys_fork directory address t =
    let (child, t') = process_create directory address t in
    if child == 0 then (minus 1, t') else (pos t.next_pid, t')

-- The rest of a line behind a byte.
abbrev pub behind : ℕ → Option (List ℕ × List ℤ) → Option (List ℕ × List ℤ)
behind ch none = none
behind ch (some (more, keys)) = some (ch ∷ more, keys)

-- The line reading of `sys_read`: `keys` are what the keyboard, or else the serial port with a line
-- end for a carriage return, gives each time it is asked. The bytes read, and the keys left; `none` if
-- the call still waits when they are used up.
unfoldable pub read_line : (count : ℕ) → List ℤ → Option (List ℕ × List ℤ)
read_line zero keys = some ([], keys)
read_line (suc left) [] = none
read_line (suc left) (negsuc e ∷ keys) = read_line (suc left) keys
read_line (suc left) (pos ch ∷ keys) =
    let rest = read_line left keys in if ch == b'\n' then some (ch ∷ [], keys) else behind ch rest

-- The result, the bytes in the buffer, the keys left and the files.
abbrev pub ReadResult : Type 0
ReadResult = ℤ × List ℕ × List ℤ × Vfs

-- `sys_read` into a buffer that is not NULL.
pub sys_read : (fd : ℤ) (count : ℕ) → List ℤ → Vfs → Option ReadResult
sys_read (negsuc n) count keys v =
    let (got, bytes, v') = read v (negsuc n) count in some (got, bytes, keys, v')
sys_read (pos (suc fd)) count keys v =
    let (got, bytes, v') = read v (pos (suc fd)) count in some (got, bytes, keys, v')
sys_read (pos zero) count keys v = elim (read_line count keys) [
  | none ↦ none
  | some (bytes, keys') ↦ some (pos (length bytes), bytes, keys', v)
]

-- What of a text the console gets: the bytes before a 0.
unfoldable pub shown : List ℕ → List ℕ
shown [] = []
shown (c ∷ cs) = let rest = c ∷ shown cs in if c == 0 then [] else rest

-- `sys_write`: the result, what the console gets, and the files.
pub sys_write : (fd : ℤ) → List ℕ → Vfs → ℤ × List ℕ × Vfs
sys_write fd bytes v =
    let (put, v') = write v fd bytes in
    elim fd [
      | negsuc n ↦ (put, [], v')
      | pos n ↦ if n == 1 || n == 2 then (pos (length bytes), shown bytes, v) else (put, [], v')
    ]

-- `sys_open`
pub sys_open : ℕ → Vfs → List ℕ → ℕ → Option (ℤ × Vfs)
sys_open fuel v filename flags = open_file fuel v filename flags

-- `sys_close`
pub sys_close : Vfs → ℤ → ℤ × Vfs
sys_close v fd = close v fd

-- `sys_getpid`
unfoldable pub sys_getpid : Table → ℤ
sys_getpid t = elim (process_current t) [ none ↦ minus 1 | some p ↦ pos p.pid ]

-- `sys_getppid`
unfoldable pub sys_getppid : Table → ℤ
sys_getppid t = elim (process_current t) [
  | none ↦ minus 1
  | some p ↦ elim (process_find t p.parent_pid) [ none ↦ pos 0 | some parent ↦ pos parent.pid ]
]

-- `sys_execve`
pub sys_execve :
    ℕ
    → (file_memory memory : Bool) → (loaded_at : ℕ) → Table
    → Vfs
    → List ℕ
    → Option (ℤ × Table × Vfs)
sys_execve fuel file_memory memory loaded_at t v path = elim (process_current t) [
  | none ↦ some (minus 1, t, v)
  | some p ↦ elim (process_exec fuel file_memory memory p.address loaded_at t v path) [
    | none ↦ none
    | some (ret, t', v') ↦ some (if is_neg ret then minus 1 else pos 0, t', v')
  ]
]

-- `sys_exit`: where the process has ended, control goes elsewhere.
pub sys_exit : Registers → (exit_code : ℤ) → Table → Option Control
sys_exit r exit_code t = process_exit r exit_code t

-- `sys_sbrk` and `sys_waitpid`
abbrev pub sys_sbrk : ℤ
sys_sbrk = minus 1

abbrev pub sys_waitpid : ℤ
sys_waitpid = minus 1
