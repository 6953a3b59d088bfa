-- ===== src/FileTable/Slots.antt =====
-- Opening and closing in the table of files of kernel/fs.c.
use reta_os.Prelude.{
  ℕ, zero, suc, ◌+◌, ◌≡◌, refl, ap, ◌∙◌, ◌≢◌, ◌<◌, true, false, some, List, [], ◌∷◌, ◌==◌, leb,
  get_or, set, length, arith, Bool-cases, inl, inr,
}
use reta_os.Prelude.Int.{pos}
use reta_os.FileTable.{
  Ptr, Files, zero_file, nr_open_default, unused_from, fd_install, fget, fput, sys_close, sys_open,
  update,
}

unused_from-free :
    (ps : List Ptr) (from fd : ℕ)
    → unused_from ps from ≡ some fd
    → (k : ℕ) × (fd ≡ from + k) × (k < length ps) × (get_or ps k 0 ≡ 0)
unfolding unused_from
unused_from-free [] from fd e = absurd (ground (arith, e))
unused_from-free (p ∷ ps) from fd e = elim (Bool-cases (p == 0)) [
  | inl free ↦ (0, ground (arith, free, e), omega arith, ground (arith, free))
  | inr taken ↦
      let (k, at, range, free) = unused_from-free ps (from + 1) fd (rw taken at e) in
      (suc k, omega (arith, at), omega (arith, range), free)
]

set-set_self : (ps : List Ptr) (k : ℕ) (p : Ptr) → get_or ps k 0 ≡ 0 → set (set ps k p) k 0 ≡ ps
set-set_self [] k p e = refl
set-set_self (q ∷ ps) zero p e = rw e refl
set-set_self (q ∷ ps) (suc k) p e = ap (λ l. q ∷ l) (set-set_self ps k p e)

get_or-set : (ps : List Ptr) (k : ℕ) (p : Ptr) → k < length ps → get_or (set ps k p) k 0 ≡ p
get_or-set [] k p h = absurd (omega (arith, h))
get_or-set (q ∷ ps) zero p h = refl
get_or-set (q ∷ ps) (suc k) p h = get_or-set ps k p (omega (arith, h))

-- The state with `file` opened in slot `fd`.
abbrev pub opened : (file : Ptr) → (flags fd : ℕ) → Files → Files
opened file flags fd t = record t {
  fd_table = set t.fd_table fd file;
  file_at = update t.file_at file (record zero_file { fd = fd; flags = flags });
}

-- In the table of 32 files of kernel/fs.c, `sys_open` with memory for the file and a free slot
-- returns the slot, `fget` then gives the file, and `sys_close` of the slot succeeds, frees the
-- file and leaves the table from before.
pub sys_close-sys_open :
    (file : Ptr) (flags fd : ℕ) (t : Files)
    → length t.fd_table ≡ nr_open_default
    → file ≢ 0
    → unused_from t.fd_table 0 ≡ some fd
    → (sys_open file flags t ≡ (pos fd, opened file flags fd t))
      × (fget (opened file flags fd t) (pos fd) ≡ file)
      × (sys_close (opened file flags fd t) (pos fd) ≡ (
        pos 0,
        record (opened file flags fd t) { fd_table = t.fd_table; freed = file ∷ t.freed },
      ))
unfolding sys_open fd_install fget sys_close fput
sys_close-sys_open file flags fd t size real free_slot =
    let (k, same, range, free) = unused_from-free t.fd_table 0 fd free_slot in
    let free' : get_or t.fd_table fd 0 ≡ 0 =
      ap (λ (i : ℕ). get_or t.fd_table i 0) (omega (arith, same)) ∙ free in
    let not_null : (file == 0) ≡ false = ground (arith, real) in
    let in_range : leb nr_open_default fd ≡ false = ground (arith, same, range, size) in
    let there = get_or-set t.fd_table fd file (omega (arith, same, range)) in
    let itself : (file == file) ≡ true = ground arith in
    let restored = set-set_self t.fd_table fd file free' in
    let closes : sys_close (opened file flags fd t) (pos fd)
        ≡ fput (record (opened file flags fd t) { fd_table = t.fd_table }) file =
      rw (in_range, there, not_null, restored) refl in
    (
      rw (sys_open, not_null, free_slot, in_range, free') refl,
      rw (fget, in_range, there) refl,
      closes ∙ rw (fput, not_null, itself) refl,
    )
