-- ===== src/Elf.antt =====
-- kernel/elf.c, the loader of programs, over the virtual file system of Vfs. Functions return `none`
-- where a path leads through a longer chain of links than the fuel, and where the loop of `map_pages`
-- takes more rounds than the fuel.
mod Tests
pub mod Fails
use reta_os.Prelude.{
  ℕ, zero, suc, ◌+◌, ◌-◌, ◌*◌, ◌%◌, ◌^◌, Bool, true, false, not, ◌&&◌, ◌||◌, Option, none, some,
  List, [], ◌∷◌, ltb, ◌==◌, if◌then◌else◌, take, drop, get_or,
}
use reta_os.Prelude.Int.{ℤ, pos, negsuc, minus, is_neg}
use reta_os.Prelude.Maybe.{◌>>=◌}
use reta_os.Vfs.Node.{Vfs, u32}
use reta_os.Vfs.Files.{ReadResult, open_file, read, close}
use reta_os.Vfs.Dirs.{stat}

-- Sizes of `Elf32_Ehdr` and `Elf32_Phdr`
abbrev pub ehdr_size : ℕ
ehdr_size = 52

abbrev pub phdr_size : ℕ
phdr_size = 32

abbrev pub pt_load : ℕ
pt_load = 1

abbrev pub le16 : List ℕ → ℕ → ℕ
le16 bs i = get_or bs i 0 + 256 * get_or bs (i + 1) 0

abbrev pub le32 : List ℕ → ℕ → ℕ
le32 bs i = le16 bs i + 65536 * le16 bs (i + 2)

-- The fields of `Elf32_Ehdr` that the loader reads.
pub record Ehdr : Type 0 where
  pub e_ident : List ℕ
  pub e_machine : ℕ
  pub e_entry : ℕ
  pub e_phoff : ℕ
  pub e_phnum : ℕ

unfoldable pub ehdr_of : List ℕ → Ehdr
ehdr_of bs = record {
  e_ident = take 16 bs;
  e_machine = le16 bs 18;
  e_entry = le32 bs 24;
  e_phoff = le32 bs 28;
  e_phnum = le16 bs 44;
}

-- The fields of `Elf32_Phdr` that the loader reads.
pub record Phdr : Type 0 where
  pub p_type : ℕ
  pub p_offset : ℕ
  pub p_vaddr : ℕ
  pub p_filesz : ℕ
  pub p_memsz : ℕ

-- The header at byte `i`.
pub phdr_at : List ℕ → ℕ → Phdr
phdr_at bs i = record {
  p_type = le32 bs i;
  p_offset = le32 bs (i + 4);
  p_vaddr = le32 bs (i + 8);
  p_filesz = le32 bs (i + 16);
  p_memsz = le32 bs (i + 20);
}

abbrev pub has_magic : Ehdr → Bool
has_magic h =
    get_or h.e_ident 0 0 == 0x7F
    && get_or h.e_ident 1 0 == b'E'
    && get_or h.e_ident 2 0 == b'L'
    && get_or h.e_ident 3 0 == b'F'

unfoldable pub elf_validate : Ehdr → Bool
elf_validate h =
    has_magic h
    && get_or h.e_ident 4 0 == 1
    && get_or h.e_ident 5 0 == 1
    && get_or h.e_ident 6 0 == 1
    && h.e_machine == 3

-- The loop of `map_pages`: the pages from `virt` on that begin before `end`. Each is mapped to what
-- `kmalloc_a` gives, if that gives a page.
pub pages_from : ℕ → (virt end : ℕ) → Option (List ℕ)
pages_from zero virt end = none
pages_from (suc fuel) virt end =
    let further = (do rest ← pages_from fuel (u32 (virt + 0x1000)) end; some (virt ∷ rest)) in
    if ltb virt end then further else some []

pub map_pages : ℕ → (virt_addr size : ℕ) → Option (List ℕ)
map_pages fuel virt_addr size =
    pages_from fuel (virt_addr - virt_addr % 0x1000) (u32 (virt_addr + size))

-- A loaded segment: the pages that it needs, and the bytes copied to its address.
pub record Segment : Type 0 where
  pub pages : List ℕ
  pub address : ℕ
  pub bytes : List ℕ

-- The loop over `count` program headers, of which the first is at byte `i` of the file.
pub load_segments : ℕ → List ℕ → (count i : ℕ) → Option (List Segment)
load_segments fuel image zero i = some []
load_segments fuel image (suc count) i =
    let rest = load_segments fuel image count (i + phdr_size) in
    let ph = phdr_at image i in
    let loaded = (do
      pages ← map_pages fuel ph.p_vaddr ph.p_memsz
      more ← rest
      some (
          record {
            pages = pages;
            address = ph.p_vaddr;
            bytes = take ph.p_filesz (drop ph.p_offset image);
          }
          ∷ more)) in
    if ph.p_type == pt_load then loaded else rest

-- What `elf_exec` does: it returns -1, or goes to user mode at the entry point with the segments.
pub data Exec : Type 0 where
  failed : Exec
  started : (entry : ℕ) → List Segment → Exec

-- `got < (ssize_t)wanted`
abbrev pub short : ℤ → ℕ → Bool
short (pos got) wanted = ltb got wanted
short (negsuc got) wanted = true

-- `vfs_close(fd)` and the failure.
abbrev pub give_up : ℕ → Vfs → Option (Exec × Vfs)
give_up fd v = some (failed, (close v (pos fd)).1)

-- `elf_exec` behind its second read.
pub exec_image : ℕ → (size fd : ℕ) → Ehdr → ReadResult → Option (Exec × Vfs)
exec_image fuel size fd h (got, image, v) =
    let loaded = (do
      segments ← load_segments fuel image h.e_phnum h.e_phoff
      some (started h.e_entry segments, (close v (pos fd)).1)) in
    if short got size then give_up fd v else loaded

-- `elf_exec` behind its first read; `memory` tells whether `kmalloc` gives the room for the file.
pub exec_header : ℕ → (memory : Bool) → (size fd : ℕ) → ReadResult → Option (Exec × Vfs)
exec_header fuel memory size fd (got, header, v) =
    if short got ehdr_size
    then give_up fd v
    else (if not (elf_validate (ehdr_of header))
        then give_up fd v
        else (if not memory
            then give_up fd v
            else exec_image fuel size fd (ehdr_of header) (read v (pos fd) size)))

-- `elf_exec` behind `vfs_open`.
pub exec_open : ℕ → (memory : Bool) → (size : ℕ) → Option (ℤ × Vfs) → Option (Exec × Vfs)
exec_open fuel memory size none = none
exec_open fuel memory size (some (negsuc e, v)) = some (failed, v)
exec_open fuel memory size (some (pos fd, v)) =
    exec_header fuel memory size fd (read v (pos fd) ehdr_size)

-- `elf_exec` behind `vfs_stat`.
pub exec_stat : ℕ → (memory : Bool) → Vfs → List ℕ → Option (ℤ × ℕ × ℕ) → Option (Exec × Vfs)
exec_stat fuel memory v filename none = none
exec_stat fuel memory v filename (some (ret, size, mode)) =
    if is_neg ret || ltb size ehdr_size
    then some (failed, v)
    else exec_open fuel memory size (open_file fuel v filename 0)

pub elf_exec : ℕ → (memory : Bool) → Vfs → List ℕ → Option (Exec × Vfs)
elf_exec fuel memory v filename = exec_stat fuel memory v filename (stat fuel v filename)

abbrev pub init_elf : List ℕ
init_elf =
    b'/' ∷ b'b' ∷ b'i' ∷ b'n' ∷ b'/' ∷ b'i' ∷ b'n' ∷ b'i' ∷ b't' ∷ b'.' ∷ b'e' ∷ b'l' ∷ b'f' ∷ []

-- `elf_load` behind its second read: the bytes of the file, or `none` for NULL.
pub load_image : (size fd : ℕ) → Ehdr → ReadResult → Option (List ℕ) × Vfs
load_image size fd h (got, image, v) =
    if short got size
    then (none, (close v (pos fd)).1)
    else (if has_magic h then some image else none, (close v (pos fd)).1)

-- `elf_load` behind its first read.
pub load_header : (memory : Bool) → (size fd : ℕ) → ReadResult → Option (List ℕ) × Vfs
load_header memory size fd (got, header, v) =
    if short got ehdr_size
    then (none, (close v (pos fd)).1)
    else (if not (has_magic (ehdr_of header)) || not memory
        then (none, (close v (pos fd)).1)
        else load_image size fd (ehdr_of header) (read v (pos fd) size))

-- `elf_load` behind `vfs_open`.
pub load_open : (memory : Bool) → (size : ℕ) → Option (ℤ × Vfs) → Option (Option (List ℕ) × Vfs)
load_open memory size none = none
load_open memory size (some (negsuc e, v)) = some (none, v)
load_open memory size (some (pos fd, v)) =
    some (load_header memory size fd (read v (pos fd) ehdr_size))

-- `elf_load` behind `vfs_stat`.
pub load_stat : ℕ → (memory : Bool) → Vfs → Option (ℤ × ℕ × ℕ) → Option (Option (List ℕ) × Vfs)
load_stat fuel memory v none = none
load_stat fuel memory v (some (ret, size, mode)) =
    if is_neg ret || ltb size ehdr_size
    then some (none, v)
    else load_open memory size (open_file fuel v init_elf 0)

-- `elf_load`, which does not use its arguments: the bytes of the file, or `none` for NULL.
pub elf_load : ℕ → (memory : Bool) → Vfs → Option (Option (List ℕ) × Vfs)
elf_load fuel memory v = load_stat fuel memory v (stat fuel v init_elf)
