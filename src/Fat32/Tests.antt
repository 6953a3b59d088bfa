-- ===== src/Fat32/Tests.antt =====
-- Concrete disks and files for the parts below Fat32.
use reta_os.Prelude.{
  ℕ, ◌≡◌, refl, true, false, none, some, List, [], ◌∷◌, ◌++◌, ◌==◌, if◌then◌else◌, arith, replicate,
}
use reta_os.Prelude.Int.{pos}
use reta_os.Fat32.{Disk, BootSector, Fat, is_eof_cluster, first_sector_of_cluster}
use reta_os.Fat32.Entry.{DirEntry, entry_at, entries_from, is_visible}
use reta_os.Fat32.File.{read_file_data, bytes_per_cluster}
use reta_os.Fat32.File.Content.{Chain, finish, link, read_file_data-Chain}
use reta_os.Fat32.Dir.{find_entry, readdir_index}
use reta_os.Fat32.Dir.Listing.{Listed, link, finish, none_left, sector, visible}
use reta_os.Fat32.Dir.Listing.Agree.{Finds, find_entry-Finds}
use reta_os.Fat32.Init.{Driver, Loaded, load}
use reta_os.Fat32.Init.Load.{sectors, load-ends}
use reta_os.Fat32.Nodes.{Private, FatNode, read}
use reta_os.Fat32.Nodes.Files.{read-part}

abbrev boot : BootSector
boot = record {
  bytes_per_sector = 4;
  sectors_per_cluster = 1;
  reserved_sector_count = 1;
  num_fats = 1;
  total_sectors_32 = 10;
  fat_size_32 = 1;
  root_cluster = 2;
  fs_type = [];
}

-- Cluster 2 is followed by cluster 3, the last.
abbrev fat : Fat
fat = record {
  boot = boot;
  table = 0 ∷ 0 ∷ 3 ∷ 0x0FFF_FFFF ∷ [];
  total_clusters = 8;
  fat_begin_lba = 1;
  cluster_begin_lba = 2;
  initialized = true;
}

abbrev disk : Disk
disk lba count = if lba == 2 then some (10 ∷ 11 ∷ 12 ∷ 13 ∷ []) else some (20 ∷ 21 ∷ 22 ∷ 23 ∷ [])

abbrev words : List ℕ
words = 10 ∷ 11 ∷ 12 ∷ 13 ∷ 20 ∷ 21 ∷ 22 ∷ 23 ∷ []

two_clusters : Chain disk fat 2 words 2
unfolding is_eof_cluster first_sector_of_cluster bytes_per_cluster
two_clusters = link {cluster = 2} {next = 3} (10 ∷ 11 ∷ 12 ∷ 13 ∷ []) refl refl refl refl (
    link {cluster = 3} {next = 0x0FFF_FFFF} (20 ∷ 21 ∷ 22 ∷ 23 ∷ []) refl refl refl refl
      (finish 0x0FFF_FFFF refl))

read_file_data-Chain_example :
    read_file_data 3 disk true fat 2 2 4 ≡ some (pos 4, 12 ∷ 13 ∷ 20 ∷ 21 ∷ [])
unfolding bytes_per_cluster
read_file_data-Chain_example =
    read_file_data-Chain 3 2 4 refl two_clusters (omega arith) (omega arith) (omega arith)

-- Six of the eight bytes are those of the file.
abbrev private : Private
private = record { cluster = 2; size = 6; pos = 0; is_dir = false }

abbrev file : FatNode
file = record { name = b'a' ∷ []; size = 6; flags = 1; dir_ops = false; priv = some private }

read-part_example :
    (after : FatNode) × (read 3 disk true fat file 3 10 ≡ some (pos 3, 13 ∷ 20 ∷ 21 ∷ [], after))
unfolding bytes_per_cluster
read-part_example =
    read-part 3 file private 3 10 refl refl refl two_clusters (omega arith) (omega arith)
      (omega arith) (omega arith) (omega arith)

-- A directory of one cluster, with the file `a.txt` behind a deleted entry.
abbrev deleted : List ℕ
deleted = 0xE5 ∷ replicate 31 0

abbrev a_txt : List ℕ
a_txt =
    b'A' ∷ replicate 7 b' ' ++ (b'T' ∷ b'X' ∷ b'T' ∷ replicate 15 0 ++ (2 ∷ 0 ∷ 6 ∷ 0 ∷ 0 ∷ 0 ∷ []))

abbrev dir_disk : Disk
dir_disk lba count = some (deleted ++ a_txt)

abbrev listed : List DirEntry
listed =
    record {
      name = b'A' ∷ replicate 7 b' ' ++ (b'T' ∷ b'X' ∷ b'T' ∷ []);
      attributes = 0;
      first_cluster_high = 0;
      first_cluster_low = 2;
      file_size = 6;
    }
    ∷ []

directory : Listed dir_disk fat 3 listed 1
unfolding is_eof_cluster entry_at entries_from is_visible visible
directory =
    link {cluster = 3} {next = 0x0FFF_FFFF} refl (sector (deleted ++ a_txt) refl none_left) refl
      (finish refl)

find_entry-Finds_example :
    Finds
      (b'a' ∷ b'.' ∷ b't' ∷ b'x' ∷ b't' ∷ [])
      (readdir_index 2 dir_disk fat 3)
      (find_entry 2 dir_disk fat 3 (b'a' ∷ b'.' ∷ b't' ∷ b'x' ∷ b't' ∷ []))
find_entry-Finds_example =
    find_entry-Finds 2 (b'a' ∷ b'.' ∷ b't' ∷ b'x' ∷ b't' ∷ []) refl directory (omega arith)

-- An image of two sectors: the boot sector and a table of 128 equal words.
abbrev boot_sector : List ℕ
boot_sector =
    replicate 11 0
    ++ (0 ∷ 2 ∷ 1 ∷ 1 ∷ 0 ∷ 1 ∷ replicate 15 0
        ++ (100 ∷ 0 ∷ 0 ∷ 0 ∷ 1 ∷ 0 ∷ 0 ∷ 0 ∷ replicate 4 0
            ++ (2 ∷ 0 ∷ 0 ∷ 0 ∷ replicate 34 0
                ++ (b'F' ∷ b'A' ∷ b'T' ∷ b'3' ∷ b'2' ∷ b' ' ∷ b' ' ∷ b' ' ∷ replicate 422 0))))

abbrev image : List ℕ
image = boot_sector ++ replicate 512 7

abbrev image_disk : Disk
image_disk lba count = some (sectors image lba count)

abbrev image_boot : BootSector
image_boot = record {
  bytes_per_sector = 512;
  sectors_per_cluster = 1;
  reserved_sector_count = 1;
  num_fats = 1;
  total_sectors_32 = 100;
  fat_size_32 = 1;
  root_cluster = 2;
  fs_type = b'F' ∷ b'A' ∷ b'T' ∷ b'3' ∷ b'2' ∷ b' ' ∷ b' ' ∷ b' ' ∷ [];
}

abbrev idle : Driver
idle = record { fat = record fat { initialized = false }; g_fat = 0; freed = [] }

abbrev kmalloc_at : ℕ → ℕ × List ℕ
kmalloc_at n = (4096, replicate n 0)

load-ends_example : (r : Loaded) × (load 2 image_disk 512 1 1 0 (replicate 512 0) ≡ some r)
load-ends_example = load-ends image_disk 512 2 1 1 0 (replicate 512 0) (omega arith)

-- The boot sector can be read, the table cannot.
abbrev bad_disk : Disk
bad_disk lba count = if lba == 0 then some boot_sector else none
