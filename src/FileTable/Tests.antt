-- ===== src/FileTable/Tests.antt =====
-- A table of files of kernel/fs.c with one file, and a list of file systems.
use reta_os.Prelude.{◌≡◌, refl, true, some, [], ◌∷◌, arith, replicate}
use reta_os.Prelude.Int.{pos}
use reta_os.FileTable.{FileSystemType, Files, zero_file, unused_from, fget, sys_open, sys_close}
use reta_os.FileTable.Slots.{opened, sys_close-sys_open}

abbrev one_file : Files
one_file = record {
  fd_table = 64 ∷ replicate 31 0;
  file_at = λ p. zero_file;
  freed = [];
  released = [];
}

sys_close-sys_open_example :
    (sys_open 96 2 one_file ≡ (pos 1, opened 96 2 1 one_file))
    × (fget (opened 96 2 1 one_file) (pos 1) ≡ 96)
    × (sys_close (opened 96 2 1 one_file) (pos 1) ≡ (
      pos 0,
      record (opened 96 2 1 one_file) { fd_table = one_file.fd_table; freed = 96 ∷ [] },
    ))
unfolding unused_from
sys_close-sys_open_example = sys_close-sys_open 96 2 1 one_file refl (ground arith) refl

abbrev fat : FileSystemType
fat = record { address = 8; name = some (b'f' ∷ b'a' ∷ b't' ∷ []); has_mount = true }
