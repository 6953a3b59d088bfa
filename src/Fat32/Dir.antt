-- ===== src/Fat32/Dir.antt =====
-- `fat32_find_entry` and `fat32_readdir_index` of fs/fat32.c. The walk over the chain of clusters
-- takes fuel, since the table may hold a cycle.
pub mod Listing
use reta_os.Prelude.{
  ℕ, zero, suc, ◌+◌, Bool, true, false, not, ◌||◌, Option, none, some, List, [], ◌∷◌, ◌==◌,
  if◌then◌else◌,
}
use reta_os.Prelude.Int.{ℤ, is_zero}
use reta_os.Text.{strcasecmp}
use reta_os.Fat32.{Disk, Fat, u32, is_eof_cluster, first_sector_of_cluster, next_cluster}
use reta_os.Fat32.Entry.{DirEntry, Dir, entries_in, is_visible, entry_name, dir_of}

-- What a search returns, or how many entries it has counted where it goes on: 0 with the entry,
-- -ENOENT, -EIO, -EINVAL. `lost` is fuel that ran out, or a read outside the table.
pub data Search : Type 0 where
  hit : Dir → Search
  no_entry : Search
  broken : Search
  invalid : Search
  lost : Search

-- A sector that cannot be read ends a search, and so does a cluster outside the table.
abbrev pub on_sector : Option (List ℕ) → (List ℕ → Search) → Search
on_sector none read = broken
on_sector (some sector) read = read sector

abbrev pub on_next : Option ℕ → (ℕ → Search) → Search
on_next none walk = lost
on_next (some next) walk = walk next

abbrev pub or_else : Option Dir → Search → Search
or_else none onward = onward
or_else (some d) onward = hit d

-- The inner loop of `fat32_find_entry` over the entries of a sector.
pub find_in : List ℕ → List DirEntry → Option Dir
find_in name [] = none
find_in name (e ∷ es) =
    let rest = find_in name es in
    if is_visible e
    then (if is_zero (strcasecmp (entry_name e) name) then some (dir_of e) else rest)
    else rest

-- The loop over the sectors of a cluster, of which `left` are still to be read, and `onward` behind it.
pub find_sectors : Disk → List ℕ → (left lba : ℕ) → Search → Search
find_sectors disk name zero lba onward = onward
find_sectors disk name (suc left) lba onward =
    let rest = find_sectors disk name left (lba + 1) onward in
    on_sector (disk (u32 lba) 1) (λ sector. or_else (find_in name (entries_in sector)) rest)

pub find_clusters : ℕ → Disk → Fat → List ℕ → ℕ → Search
find_clusters zero disk f name cluster = lost
find_clusters (suc fuel) disk f name cluster =
    let onward = on_next (next_cluster f cluster) (λ next. find_clusters fuel disk f name next) in
    if is_eof_cluster cluster || cluster == 0
    then no_entry
    else find_sectors disk name f.boot.sectors_per_cluster (first_sector_of_cluster f cluster)
        onward

pub find_entry : ℕ → Disk → Fat → ℕ → List ℕ → Search
find_entry fuel disk f dir_cluster name =
    if not f.initialized then invalid else find_clusters fuel disk f name dir_cluster

-- The inner loop of `fat32_readdir_index`: the entry, or the new value of `entries_found`.
pub data Counted : Type 0 where
  here : DirEntry → Counted
  counted : ℕ → Counted

pub index_in : (index found : ℕ) → List DirEntry → Counted
index_in index found [] = counted found
index_in index found (e ∷ es) =
    let skipped = index_in index found es in
    let passed = index_in index (found + 1) es in
    if is_visible e then (if found == index then here e else passed) else skipped

abbrev pub on_count : Counted → (ℕ → Search) → Search
on_count (here e) onward = hit (dir_of e)
on_count (counted more) onward = onward more

pub index_sectors : Disk → (index left lba found : ℕ) → (ℕ → Search) → Search
index_sectors disk index zero lba found onward = onward found
index_sectors disk index (suc left) lba found onward = on_sector (disk (u32 lba) 1) (λ sector.
    on_count (index_in index found (entries_in sector))
      (λ more. index_sectors disk index left (lba + 1) more onward))

pub index_clusters : ℕ → Disk → Fat → (index found cluster : ℕ) → Search
index_clusters zero disk f index found cluster = lost
index_clusters (suc fuel) disk f index found cluster =
    let onward = λ (more : ℕ).
      on_next (next_cluster f cluster) (λ next. index_clusters fuel disk f index more next) in
    if is_eof_cluster cluster || cluster == 0
    then no_entry
    else index_sectors disk index f.boot.sectors_per_cluster (first_sector_of_cluster f cluster)
        found onward

pub readdir_index : ℕ → Disk → Fat → (dir_cluster index : ℕ) → Search
readdir_index fuel disk f dir_cluster index =
    if not f.initialized then invalid else index_clusters fuel disk f index 0 dir_cluster
