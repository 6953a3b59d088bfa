-- ===== src/Syscalls/Tests.antt =====
-- Runs of kernel/syscalls.c.
use reta_os.Prelude.{◌≡◌, refl, none, some, List, [], ◌∷◌, replicate}
use reta_os.Prelude.Int.{ℤ, pos, negsuc}
use reta_os.Syscalls.{
  SyscallTable, read_line, syscalls_init, syscall_register, syscall_dispatch, getpid_call,
}
use reta_os.Syscalls.Line.{Lines, read_line-Lines}

abbrev empty : SyscallTable
empty = replicate 256 none

getpid_run : syscall_dispatch (syscalls_init empty) 8 ≡ some getpid_call
unfolding syscall_dispatch syscalls_init syscall_register
getpid_run = refl

unknown_run : syscall_dispatch (syscalls_init empty) 11 ≡ none
unfolding syscall_dispatch syscalls_init syscall_register
unknown_run = refl

-- `hi`, a moment without a key, and the end of the line.
abbrev keys : List ℤ
keys = pos b'h' ∷ pos b'i' ∷ negsuc 0 ∷ pos b'\n' ∷ pos b'x' ∷ []

read_line-Lines_example :
    Lines 80 (b'h' ∷ b'i' ∷ b'\n' ∷ b'x' ∷ []) (some (b'h' ∷ b'i' ∷ b'\n' ∷ [], pos b'x' ∷ []))
unfolding read_line
read_line-Lines_example = read_line-Lines 80 keys
