-- ===== src/Elf/Fails.antt =====
-- What `elf_exec` and `elf_load` of kernel/elf.c come to.
use reta_os.Prelude.{
  ℕ, ◌-◌, ◌^◌, ◌≤◌, ◌<◌, ◌≡◌, refl, ap, inl, inr, Bool, true, false, not, ◌||◌, none, some, List,
  ltb, length, arith, Bool-cases,
}
use reta_os.Prelude.Int.{ℤ, pos, negsuc}
use reta_os.Vfs.Node.{Vfs, Node}
use reta_os.Vfs.Lookup.{found, lookup}
use reta_os.Vfs.Files.{ReadResult, read, close, put_file, advance}
use reta_os.Vfs.Files.Bounded.{
  Reads, fails, nothing, gives, Opens, refused, opened, IsHonest, IsOpenable, IsAtMost,
  read-IsAtMost, read-Reads, slot-put_file, open_file-Opens,
}
use reta_os.Vfs.Dirs.Removal.{stat-found}
use reta_os.Elf.{
  Ehdr, ehdr_size, short, failed, give_up, exec_image, exec_header, exec_open, exec_stat, elf_exec,
  init_elf, load_image, load_header, load_open, load_stat, elf_load, elf_validate, ehdr_of,
  has_magic,
}

short-IsAtMost : (got : ℤ) (left size : ℕ) → IsAtMost got left → left < size → short got size ≡ true
short-IsAtMost (pos k) left size le lt = ground (arith, le)
short-IsAtMost (negsuc k) left size le lt = refl

exec_image-short :
    (fuel size fd : ℕ) (h : Ehdr) (r : ReadResult)
    → short r.0 size ≡ true
    → exec_image fuel size fd h r ≡ give_up fd r.2
unfolding exec_image
exec_image-short fuel size fd h (got, image, v) e = rw e refl

load_image-short :
    (size fd : ℕ) (h : Ehdr) (r : ReadResult)
    → short r.0 size ≡ true
    → load_image size fd h r ≡ (none, (close r.2 (pos fd)).1)
unfolding load_image
load_image-short size fd h (got, image, v) e = rw e refl

-- A file that has been opened: the slot, and the file at its start in it.
module _ (v : Vfs) (fd : ℕ) (node : Node) (inside : fd < length v.open_files)
    (start : node.position ≡ 0) (header : ehdr_size ≤ node.size) (honest : IsHonest node)
    (small : node.size < 2 ^ 31) where
  -- Behind a first read that is long enough, the second falls short of the file.
  second-short :
      (k : ℕ)
      → k ≤ node.size - node.position
      → ltb k ehdr_size ≡ false
      → short (read (put_file v fd (advance node k)) (pos fd) node.size).0 node.size ≡ true
  second-short k le long =
      short-IsAtMost _ (node.size - k) node.size
        (read-IsAtMost v fd k node.size node inside start (omega (arith, le)) honest small small)
        (ground (arith, long, header))

  exec_header-fails :
      (fuel : ℕ) (memory : Bool) (r : ReadResult)
      → Reads v fd node r
      → (v' : Vfs) × (exec_header fuel memory node.size fd r ≡ some (failed, v'))
  unfolding exec_header
  exec_header-fails fuel memory (negsuc k, bytes, w) (fails e) = ((close w (pos fd)).1, refl)
  exec_header-fails fuel memory (pos k, bytes, w) (fails e) = absurd (ground (arith, e))
  exec_header-fails fuel memory r (nothing {w = w}) = ((close w (pos fd)).1, refl)
  exec_header-fails fuel memory r (gives {bytes = bytes} k le) =
      let w = put_file v fd (advance node k) in
      elim (Bool-cases (ltb k ehdr_size)) [
        | inl e ↦ ((close w (pos fd)).1, rw e refl)
        | inr long ↦ elim (Bool-cases (elf_validate (ehdr_of bytes))) [
          | inr e ↦ ((close w (pos fd)).1, rw (long, e) refl)
          | inl valid ↦ elim (Bool-cases memory) [
            | inr e ↦ ((close w (pos fd)).1, rw (long, valid, e) refl)
            | inl room ↦ (
              (close (read w (pos fd) node.size).2 (pos fd)).1,
              rw (long, valid, room)
                  (exec_image-short fuel node.size fd (ehdr_of bytes) (read w (pos fd) node.size)
                    (second-short k le long)),
            )
          ]
        ]
      ]

  load_header-null :
      (memory : Bool) (r : ReadResult)
      → Reads v fd node r
      → (v' : Vfs) × (load_header memory node.size fd r ≡ (none, v'))
  unfolding load_header
  load_header-null memory (negsuc k, bytes, w) (fails e) = ((close w (pos fd)).1, refl)
  load_header-null memory (pos k, bytes, w) (fails e) = absurd (ground (arith, e))
  load_header-null memory r (nothing {w = w}) = ((close w (pos fd)).1, refl)
  load_header-null memory r (gives {bytes = bytes} k le) =
      let w = put_file v fd (advance node k) in
      elim (Bool-cases (ltb k ehdr_size)) [
        | inl e ↦ ((close w (pos fd)).1, rw e refl)
        | inr long ↦ elim (Bool-cases (not (has_magic (ehdr_of bytes)) || not memory)) [
          | inl e ↦ ((close w (pos fd)).1, rw (long, e) refl)
          | inr go_on ↦ (
            (close (read w (pos fd) node.size).2 (pos fd)).1,
            rw (long, go_on)
                (load_image-short node.size fd (ehdr_of bytes) (read w (pos fd) node.size)
                  (second-short k le long)),
          )
        ]
      ]

exec_open-fails :
    (fuel : ℕ) (memory : Bool) (v : Vfs) (node : Node) (r : ℤ × Vfs)
    → Opens v node r
    → ehdr_size ≤ node.size
    → IsHonest node
    → node.size < 2 ^ 31
    → (v' : Vfs) × (exec_open fuel memory node.size (some r) ≡ some (failed, v'))
unfolding exec_open
exec_open-fails fuel memory v node (negsuc e, w) (refused neg) header honest small = (w, refl)
exec_open-fails fuel memory v node (pos k, w) (refused neg) header honest small =
    absurd (ground (arith, neg))
exec_open-fails fuel memory v node r (opened fd inside) header honest small =
    let start = record node { position = 0 } in
    let (slot, inside') = slot-put_file v fd start inside in
    exec_header-fails (put_file v fd start) fd start inside' refl header honest small fuel memory
      (read (put_file v fd start) (pos fd) ehdr_size)
      (read-Reads (put_file v fd start) fd ehdr_size start slot honest small (omega arith))

load_open-null :
    (memory : Bool) (v : Vfs) (node : Node) (r : ℤ × Vfs)
    → Opens v node r
    → ehdr_size ≤ node.size
    → IsHonest node
    → node.size < 2 ^ 31
    → (v' : Vfs) × (load_open memory node.size (some r) ≡ some (none, v'))
unfolding load_open
load_open-null memory v node (negsuc e, w) (refused neg) header honest small = (w, refl)
load_open-null memory v node (pos k, w) (refused neg) header honest small =
    absurd (ground (arith, neg))
load_open-null memory v node r (opened fd inside) header honest small =
    let start = record node { position = 0 } in
    let w = put_file v fd start in
    let (slot, inside') = slot-put_file v fd start inside in
    let (v', e) =
      load_header-null w fd start inside' refl header honest small memory
        (read w (pos fd) ehdr_size)
        (read-Reads w fd ehdr_size start slot honest small (omega arith)) in
    (v', ap some e)

-- The file is found, is below 2 GB, does not give more bytes than it has, and can be opened or refused.
abbrev pub IsProgram : ℕ → Vfs → List ℕ → Node → Type 0
IsProgram fuel v path node =
    (lookup fuel v path ≡ found node) × IsHonest node × IsOpenable node × (node.size < 2 ^ 31)

-- For every path that is found, whatever file it leads to, if the file is below 2 GB, its
-- function for reading never gives more bytes than there are behind the offset, and its function
-- for opening returns 0 or a negative error number, then `elf_exec` returns -1: no program is
-- ever started.
pub elf_exec-fails :
    (fuel : ℕ) (memory : Bool) (v : Vfs) (path : List ℕ) (node : Node)
    → IsProgram fuel v path node
    → (v' : Vfs) × (elf_exec fuel memory v path ≡ some (failed, v'))
unfolding elf_exec exec_stat
elf_exec-fails fuel memory v path node (here, honest, openable, small) =
    let found_size = stat-found fuel v path node here in
    elim (Bool-cases (ltb node.size ehdr_size)) [
      | inl e ↦ (v, rw (found_size, e) refl)
      | inr header ↦
          let (r, opening, opens) = open_file-Opens fuel v path node here openable in
          let (v', e) =
            exec_open-fails fuel memory v node r opens (ground (arith, header)) honest small in
          (v', rw (found_size, header, opening) e)
    ]

-- `elf_load` gives NULL.
elf_load-null :
    (fuel : ℕ) (memory : Bool) (v : Vfs) (node : Node)
    → IsProgram fuel v init_elf node
    → (v' : Vfs) × (elf_load fuel memory v ≡ some (none, v'))
unfolding elf_load load_stat
elf_load-null fuel memory v node (here, honest, openable, small) =
    let found_size = stat-found fuel v init_elf node here in
    elim (Bool-cases (ltb node.size ehdr_size)) [
      | inl e ↦ (v, rw (found_size, e) refl)
      | inr header ↦
          let (r, opening, opens) = open_file-Opens fuel v init_elf node here openable in
          let (v', e) =
            load_open-null memory v node r opens (ground (arith, header)) honest small in
          (v', rw (found_size, header, opening) e)
    ]
