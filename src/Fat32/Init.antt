-- ===== src/Fat32/Init.antt =====
-- `fat32_init` and `fat32_cleanup` of fs/fat32.c: the boot sector, and the table of clusters, which is
-- read in chunks of at most 255 sectors.
pub mod Load
pub mod Table
use reta_os.Prelude.{
  ℕ, zero, suc, ◌+◌, ◌-◌, ◌*◌, ◌/◌, ◌^◌, Bool, true, false, not, Option, none, some, List, [], ◌∷◌,
  ◌++◌, ltb, ◌==◌, if◌then◌else◌, take, drop, get_or, length,
}
use reta_os.Prelude.Int.{ℤ, pos, minus, is_zero}
use reta_os.Text.{strncmp}
use reta_os.Fat32.{Disk, BootSector, Fat, u32, le16, le32}

-- The variables of the file: those of `Fat`, the address in `g_fat` (0 is NULL), and the addresses
-- given to `kfree` so far.
pub record Driver : Type 0 where
  pub fat : Fat
  pub g_fat : ℕ
  pub freed : List ℕ

-- `fat32_boot_sector_t`, packed.
unfoldable pub boot_of : List ℕ → BootSector
boot_of sector = record {
  bytes_per_sector = le16 sector 11;
  sectors_per_cluster = get_or sector 13 0;
  reserved_sector_count = le16 sector 14;
  num_fats = get_or sector 16 0;
  total_sectors_32 = le32 sector 32;
  fat_size_32 = le32 sector 36;
  root_cluster = le32 sector 44;
  fs_type = take 8 (drop 82 sector);
}

-- How the reading of the table ends: the bytes of the block, a sector that cannot be read, or a
-- write outside the block.
pub data Loaded : Type 0 where
  loaded : List ℕ → Loaded
  unreadable : Loaded
  overrun : Loaded

abbrev pub chunk : ℕ → ℕ
chunk sectors_remaining = if ltb 255 sectors_remaining then 255 else sectors_remaining

-- `bytes` go to byte `at` of the block.
abbrev pub put_bytes : (block : List ℕ) (at : ℕ) → List ℕ → List ℕ
put_bytes block at bytes = take at block ++ (bytes ++ drop (at + length bytes) block)

abbrev pub on_read : Option (List ℕ) → (List ℕ → Option Loaded) → Option Loaded
on_read none store = some unreadable
on_read (some bytes) store = store bytes

-- The loop; `at` is `fat_ptr`, counted from the block on. `none` is fuel that ran out.
unfoldable pub load :
    ℕ → Disk → (bytes_per_sector sectors_remaining current_lba at : ℕ) → List ℕ → Option Loaded
load zero disk bytes_per_sector sectors_remaining current_lba at block = none
load (suc fuel) disk bytes_per_sector sectors_remaining current_lba at block =
    let sectors_to_read = chunk sectors_remaining in
    let further = λ (bytes : List ℕ).
      load fuel disk bytes_per_sector (sectors_remaining - sectors_to_read)
        (u32 (current_lba + sectors_to_read)) (at + sectors_to_read * bytes_per_sector)
        (put_bytes block at bytes) in
    let round =
      on_read (disk current_lba sectors_to_read)
        (λ bytes. if ltb (length block) (at + length bytes) then some overrun else further bytes) in
    if sectors_remaining == 0 then some (loaded block) else round

-- The block as an array of `count` words, from byte `i` on.
pub words : (count i : ℕ) → List ℕ → List ℕ
words zero i block = []
words (suc count) i block = le32 block i ∷ words count (i + 4) block

abbrev pub fat32_text : List ℕ
fat32_text = b'F' ∷ b'A' ∷ b'T' ∷ b'3' ∷ b'2' ∷ []

-- The variables that `fat32_init` computes from the boot sector.
pub located : BootSector → Fat → Fat
located b f =
    let cluster_begin = u32 (b.reserved_sector_count + b.num_fats * b.fat_size_32) in
    record f {
      boot = b;
      fat_begin_lba = b.reserved_sector_count;
      cluster_begin_lba = cluster_begin;
      total_clusters = u32 (b.total_sectors_32 + 2 ^ 32 - cluster_begin) / b.sectors_per_cluster;
    }

-- The end of `fat32_init`.
pub finish_init : Driver → Loaded → Option (ℤ × Driver)
finish_init d (loaded block) = some (
  pos 0,
  record d {
    fat = record (d.fat) { table = words (length block / 4) 0 block; initialized = true };
  },
)
finish_init d unreadable = some (minus 1, record d { freed = d.g_fat ∷ d.freed })
finish_init d overrun = none

-- `fat32_init` from the memory for the table on: `kmalloc` gives an address and the block there.
pub read_table : Disk → (ℕ → ℕ × List ℕ) → Driver → Option (ℤ × Driver)
read_table disk kmalloc d =
    let b = d.fat.boot in
    let (address, block) = kmalloc (u32 (b.fat_size_32 * b.bytes_per_sector)) in
    let d' = record d { g_fat = address } in
    if address == 0
    then some (minus 1, d')
    else (elim (load (suc b.fat_size_32) disk b.bytes_per_sector b.fat_size_32 d.fat.fat_begin_lba 0
        block) [ none ↦ none | some outcome ↦ finish_init d' outcome ])

-- `fat32_init` behind the reading of the boot sector `b`; `none` is a division by zero.
pub check_boot : Disk → (ℕ → ℕ × List ℕ) → Driver → BootSector → Option (ℤ × Driver)
check_boot disk kmalloc d b =
    if not (is_zero (strncmp b.fs_type fat32_text 5))
    then some (minus 1, record d { fat = record (d.fat) { boot = b } })
    else (if b.sectors_per_cluster == 0
        then none
        else read_table disk kmalloc (record d { fat = located b d.fat }))

-- `fat32_init` behind its first test, for what reading the boot sector gives.
pub init_fresh : Disk → (ℕ → ℕ × List ℕ) → Driver → Option (List ℕ) → Option (ℤ × Driver)
init_fresh disk kmalloc d none = some (minus 1, d)
init_fresh disk kmalloc d (some sector) = check_boot disk kmalloc d (boot_of sector)

-- `none` is a division by zero or a write outside the block.
pub init : Disk → (ℕ → ℕ × List ℕ) → Driver → Option (ℤ × Driver)
init disk kmalloc d =
    if d.fat.initialized then some (pos 0, d) else init_fresh disk kmalloc d (disk 0 1)

pub cleanup : Driver → Driver
cleanup d =
    let stopped = record d { fat = record (d.fat) { initialized = false } } in
    if d.g_fat == 0 then stopped else record stopped { g_fat = 0; freed = d.g_fat ∷ d.freed }
