-- ===== src/Fat32/Init/Table.antt =====
-- `fat32_init` with the table that it reads, and its end in `fat32_cleanup`, fs/fat32.c.
use reta_os.Prelude.{
  ℕ, suc, ◌*◌, ◌<◌, ◌≡◌, refl, ap, ◌∙◌, false, some, List, ◌∷◌, ◌==◌, if◌then◌else◌, arith,
}
use reta_os.Prelude.Int.{pos, minus}
use reta_os.Text.{strncmp}
use reta_os.Fat32.{Disk, BootSector, u32}
use reta_os.Fat32.Init.{
  Driver, boot_of, Loaded, unreadable, load, fat32_text, located, finish_init, read_table,
  check_boot, init_fresh, init, cleanup,
}

-- A boot sector that `fat32_init` takes.
abbrev pub IsFat32 : BootSector → Type 0
IsFat32 b = (strncmp b.fs_type fat32_text 5 ≡ pos 0) × (0 < b.sectors_per_cluster)

init-read_table :
    (disk : Disk) (kmalloc : ℕ → ℕ × List ℕ) (d : Driver) (sector : List ℕ) (b : BootSector)
    → d.fat.initialized ≡ false
    → disk 0 1 ≡ some sector
    → boot_of sector ≡ b
    → IsFat32 b
    → init disk kmalloc d ≡ read_table disk kmalloc (record d { fat = located b d.fat })
unfolding init init_fresh check_boot
init-read_table disk kmalloc d sector b fresh reads boot (fs, clusters) =
    let divides : (b.sectors_per_cluster == 0) ≡ false = ground (arith, clusters) in
    let first : init disk kmalloc d ≡ init_fresh disk kmalloc d (disk 0 1) =
      ap (λ t. if t then some (pos 0, d) else init_fresh disk kmalloc d (disk 0 1)) fresh in
    let sector_read : init_fresh disk kmalloc d (disk 0 1) ≡ check_boot disk kmalloc d b =
      ap (init_fresh disk kmalloc d) reads ∙ ap (check_boot disk kmalloc d) boot in
    let checked : check_boot disk kmalloc d b
        ≡ read_table disk kmalloc (record d { fat = located b d.fat }) =
      rw (fs, divides) refl in
    first ∙ sector_read ∙ checked

-- `fat32_init` with the table read, or not.
read_table-finish_init :
    (disk : Disk) (kmalloc : ℕ → ℕ × List ℕ) (d : Driver) (outcome : Loaded)
    → 0 < (kmalloc (u32 (d.fat.boot.fat_size_32 * d.fat.boot.bytes_per_sector))).0
    → load
        (suc d.fat.boot.fat_size_32)
        disk
        d.fat.boot.bytes_per_sector
        d.fat.boot.fat_size_32
        d.fat.fat_begin_lba
        0
        (kmalloc (u32 (d.fat.boot.fat_size_32 * d.fat.boot.bytes_per_sector))).1
      ≡ some outcome
    → read_table disk kmalloc d
      ≡ finish_init
          (record d {
            g_fat = (kmalloc (u32 (d.fat.boot.fat_size_32 * d.fat.boot.bytes_per_sector))).0;
          })
          outcome
unfolding read_table
read_table-finish_init disk kmalloc d outcome memory reading =
    let not_null : ((kmalloc (u32 (d.fat.boot.fat_size_32 * d.fat.boot.bytes_per_sector))).0 == 0)
        ≡ false =
      ground (arith, memory) in
    rw (not_null, reading) refl

-- If the boot sector is one of FAT32 with a cluster size that is not 0, there is memory for the
-- table and a sector of the table cannot be read, then the first `fat32_init` returns -1 and has
-- freed the block of the table, and `fat32_cleanup` behind it frees the same block again.
cleanup-init :
    (disk : Disk) (sector : List ℕ) (kmalloc : ℕ → ℕ × List ℕ) (d : Driver) (b : BootSector)
    → disk 0 1 ≡ some sector
    → boot_of sector ≡ b
    → d.fat.initialized ≡ false
    → IsFat32 b
    → 0 < (kmalloc (u32 (b.fat_size_32 * b.bytes_per_sector))).0
    → load
        (suc b.fat_size_32)
        disk
        b.bytes_per_sector
        b.fat_size_32
        b.reserved_sector_count
        0
        (kmalloc (u32 (b.fat_size_32 * b.bytes_per_sector))).1
      ≡ some unreadable
    → (after : Driver) × (init disk kmalloc d ≡ some (minus 1, after))
      × ((cleanup after).freed
          ≡ (kmalloc (u32 (b.fat_size_32 * b.bytes_per_sector))).0
            ∷ (kmalloc (u32 (b.fat_size_32 * b.bytes_per_sector))).0
            ∷ d.freed)
unfolding located finish_init cleanup
cleanup-init disk sector kmalloc d b reads boot fresh is_fat memory broken =
    let address = (kmalloc (u32 (b.fat_size_32 * b.bytes_per_sector))).0 in
    let not_null : (address == 0) ≡ false = ground (arith, memory) in
    (
      record d { fat = located b d.fat; g_fat = address; freed = address ∷ d.freed },
      init-read_table disk kmalloc d sector b fresh reads boot is_fat
          ∙ read_table-finish_init disk kmalloc (record d { fat = located b d.fat }) unreadable
              memory broken,
      rw not_null refl,
    )
