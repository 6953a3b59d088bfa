-- ===== src/Elf/Tests.antt =====
-- The loader of kernel/elf.c on a file system with `/bin/init.elf`.
use reta_os.Prelude.{
  ℕ, ◌≡◌, refl, true, none, some, List, [], ◌∷◌, ◌++◌, ◌==◌, if◌then◌else◌, arith, replicate,
}
use reta_os.Text.{strcmp, strlen, strspn, strpbrk, accepts, tokens_from, strtok_r, up_to}
use reta_os.Vfs.Node.{Vfs, Node, Ptr, zero_node}
use reta_os.Vfs.Lookup.{lookup, walk, components, step_down, find_child, found}
use reta_os.Elf.{failed, elf_exec, init_elf}
use reta_os.Elf.Fails.{IsProgram, elf_exec-fails}

-- A header of a program for this machine, and the rest of its file.
abbrev program : List ℕ
program = 0x7F ∷ b'E' ∷ b'L' ∷ b'F' ∷ 1 ∷ 1 ∷ 1 ∷ replicate 11 0 ++ (3 ∷ replicate 41 0)

abbrev elf_node : Node
elf_node = record zero_node {
  name = b'i' ∷ b'n' ∷ b'i' ∷ b't' ∷ b'.' ∷ b'e' ∷ b'l' ∷ b'f' ∷ [];
  size = 60;
  flags = 0o100444;
  buffer = some program;
  parent = 1;
}

abbrev nodes : Ptr → Node
nodes p =
    if p == 1
    then record zero_node { name = b'b' ∷ b'i' ∷ b'n' ∷ []; flags = 0o40755; children = 2 ∷ [] }
    else if p == 2
    then elf_node
    else zero_node

abbrev system : Vfs
system = record {
  nodes = nodes;
  root = record zero_node { name = b'/' ∷ []; flags = 0o40755; children = 1 ∷ [] };
  open_files = replicate 32 zero_node;
  new_buffer = λ size. none;
  new_nodes = λ i. 0;
}

init_elf-found : lookup 1 system init_elf ≡ found elf_node
unfolding lookup walk components tokens_from strtok_r strlen strspn strpbrk accepts up_to step_down
    find_child strcmp
init_elf-found = refl

init_elf-IsProgram : IsProgram 1 system init_elf elf_node
init_elf-IsProgram = (
  init_elf-found,
  λ f offset count k e. absurd (ground (arith, e)),
  λ f e. absurd (ground (arith, e)),
  omega arith,
)

elf_exec-fails_example : (v' : Vfs) × (elf_exec 1 true system init_elf ≡ some (failed, v'))
elf_exec-fails_example = elf_exec-fails 1 true system init_elf elf_node init_elf-IsProgram
