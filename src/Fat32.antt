-- ===== src/Fat32.antt =====
-- fs/fat32.c: the driver for FAT32 file systems. Reading sectors, which `read_sectors` leaves to the
-- ATA driver, is an argument: for a first sector and a count the bytes, or `none` for an error.
-- Fat32/Init reads the boot sector and the table of clusters, Fat32/Entry decodes directory entries,
-- Fat32/Dir searches directories, and Fat32/File reads files.
mod Tests
pub mod Init
pub mod Entry
pub mod Dir
pub mod File
pub mod Nodes
use reta_os.Prelude.{
  ℕ, zero, suc, ◌+◌, ◌-◌, ◌*◌, ◌/◌, ◌%◌, ◌^◌, Bool, true, false, Option, none, some, List, [], ◌∷◌,
  leb, get_elem?, get_or,
}

abbrev pub Disk : Type 0
Disk = ℕ → ℕ → Option (List ℕ)

-- The fields of `fat32_boot_sector_t` that the driver reads.
pub record BootSector : Type 0 where
  pub bytes_per_sector : ℕ
  pub sectors_per_cluster : ℕ
  pub reserved_sector_count : ℕ
  pub num_fats : ℕ
  pub total_sectors_32 : ℕ
  pub fat_size_32 : ℕ
  pub root_cluster : ℕ
  pub fs_type : List ℕ

-- The static variables of the file. `table` is what `g_fat` points to, in words.
pub record Fat : Type 0 where
  pub boot : BootSector
  pub table : List ℕ
  pub total_clusters : ℕ
  pub fat_begin_lba : ℕ
  pub cluster_begin_lba : ℕ
  pub initialized : Bool

abbrev pub u32 : ℕ → ℕ
u32 n = n % 2 ^ 32

-- Little-endian fields at byte `i`.
abbrev pub le16 : List ℕ → ℕ → ℕ
le16 bs i = get_or bs i 0 + 256 * get_or bs (i + 1) 0

abbrev pub le32 : List ℕ → ℕ → ℕ
le32 bs i = le16 bs i + 65536 * le16 bs (i + 2)

unfoldable pub is_eof_cluster : ℕ → Bool
is_eof_cluster cluster = leb 0x0FFF_FFF8 cluster

unfoldable pub first_sector_of_cluster : Fat → ℕ → ℕ
first_sector_of_cluster f cluster =
    u32 (f.cluster_begin_lba + u32 (cluster + 2 ^ 32 - 2) * f.boot.sectors_per_cluster)

-- `g_fat[cluster]`; `none` is a read outside the table.
abbrev pub next_cluster : Fat → ℕ → Option ℕ
next_cluster f cluster = get_elem? f.table cluster
