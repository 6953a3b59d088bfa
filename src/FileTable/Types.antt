-- ===== src/FileTable/Types.antt =====
-- The list of file systems of kernel/fs.c.
use reta_os.Prelude.{ℕ, ◌≡◌, refl, ap, ◌∙◌, true, false, Option, none, some, List, ◌∷◌, ◌==◌, arith}
use reta_os.Prelude.Int.{pos, is_zero}
use reta_os.Text.{strcmp}
use reta_os.Text.Compare.{strcmp_self}
use reta_os.FileTable.{
  FileSystemType, register_filesystem, unregister_filesystem, get_fs_type, is_named, usable,
}

-- A type with a name and a function `mount` is registered and then found by its name; taking it out
-- again gives the list from before.
unregister_filesystem-register_filesystem :
    (fs : FileSystemType) (name : List ℕ) (file_systems : List FileSystemType)
    → fs.name ≡ some name
    → fs.has_mount ≡ true
    → (register_filesystem fs file_systems ≡ (pos 0, fs ∷ file_systems))
      × (get_fs_type (fs ∷ file_systems) name ≡ some fs)
      × (unregister_filesystem fs.address (fs ∷ file_systems) ≡ (pos 0, file_systems))
unfolding register_filesystem get_fs_type unregister_filesystem
unregister_filesystem-register_filesystem fs name file_systems named mounts =
    let it : (fs.address == fs.address) ≡ true = ground arith in
    let called : is_named name fs ≡ true =
      ap (λ (o : Option (List ℕ)). elim o [ none ↦ false | some n ↦ is_zero (strcmp n name) ]) named
      ∙ ap is_zero (strcmp_self name) in
    let useful : usable fs ≡ true =
      ap (λ (o : Option (List ℕ)). elim o [ none ↦ false | some n ↦ fs.has_mount ]) named
      ∙ mounts in
    (rw useful refl, rw called refl, rw it refl)
