-- ===== src/Fat32/Dir/Listing.antt =====
-- The two searches of fs/fat32.c in a directory, against the list of its visible entries.
pub mod Agree
use reta_os.Prelude.{
  ℕ, zero, suc, ◌+◌, ◌-◌, ◌≤◌, ◌<◌, ◌≡◌, refl, sym, ap, ◌∙◌, fun_ext, ◌⊎◌, inl, inr, Bool, true,
  false, not, ◌||◌, Option, none, some, List, [], ◌∷◌, ◌++◌, ◌==◌, if◌then◌else◌, get_elem?, length,
  arith, Bool-cases, Option-cases, length-append,
}
use reta_os.Prelude.Int.{ℤ, is_zero}
use reta_os.Text.{strcasecmp}
use reta_os.Fat32.{Disk, Fat, u32, is_eof_cluster, first_sector_of_cluster, next_cluster}
use reta_os.Fat32.Entry.{DirEntry, Dir, entries_in, is_visible, entry_name, dir_of}
use reta_os.Fat32.Dir.{
  Search, on_sector, hit, no_entry, broken, invalid, lost, find_in, find_sectors, find_clusters,
  or_else, find_entry, Counted, here, counted, index_in, on_count, index_sectors, index_clusters,
  readdir_index,
}

unfoldable pub visible : List DirEntry → List DirEntry
visible [] = []
visible (e ∷ es) = let rest = visible es in if is_visible e then e ∷ rest else rest

-- The visible entries of `left` sectors from `lba` on, all of which can be read.
pub data Sectors (disk : Disk) : (left lba : ℕ) → List DirEntry → Type 0 where
  none_left : {lba : ℕ} → Sectors disk 0 lba []
  sector :
      {left lba : ℕ} {es : List DirEntry} (bytes : List ℕ)
      → disk (u32 lba) 1 ≡ some bytes
      → Sectors disk left (lba + 1) es
      → Sectors disk (suc left) lba (visible (entries_in bytes) ++ es)

abbrev pub ends : ℕ → Bool
ends cluster = is_eof_cluster cluster || cluster == 0

-- The chain of a directory from `cluster` on ends, can be read, and has these visible entries.
pub data Listed (disk : Disk) (f : Fat) : ℕ → List DirEntry → ℕ → Type 0 where
  finish : {cluster : ℕ} → ends cluster ≡ true → Listed disk f cluster [] 0
  link :
      {cluster next n : ℕ} {es rest : List DirEntry}
      → ends cluster ≡ false
      → Sectors disk f.boot.sectors_per_cluster (first_sector_of_cluster f cluster) es
      → next_cluster f cluster ≡ some next
      → Listed disk f next rest n
      → Listed disk f cluster (es ++ rest) (suc n)

pub matches : List ℕ → DirEntry → Bool
matches name e = is_zero (strcasecmp (entry_name e) name)

-- The first entry of that name, or what comes otherwise.
pub first : List ℕ → List DirEntry → Search → Search
first name [] otherwise = otherwise
first name (e ∷ es) otherwise =
    let rest = first name es otherwise in if matches name e then hit (dir_of e) else rest

first-append :
    (name : List ℕ) (xs ys : List DirEntry) (otherwise : Search)
    → first name (xs ++ ys) otherwise ≡ first name xs (first name ys otherwise)
unfolding first
first-append name [] ys otherwise = refl
first-append name (e ∷ xs) ys otherwise = rw (first-append name xs ys otherwise) refl

find_in-visible :
    (name : List ℕ) (es : List DirEntry) (otherwise : Search)
    → or_else (find_in name es) otherwise ≡ first name (visible es) otherwise
unfolding find_in visible first matches
find_in-visible name [] otherwise = refl
find_in-visible name (e ∷ es) otherwise =
    let rest = find_in-visible name es otherwise in
    elim (Bool-cases (is_visible e)) [
      | inr hidden ↦ rw hidden rest
      | inl shown ↦ elim (Bool-cases (is_zero (strcasecmp (entry_name e) name))) [
        | inl m ↦ rw (shown, m) refl
        | inr m ↦ rw (shown, m) rest
      ]
    ]

find_sectors-first :
    {disk : Disk} (name : List ℕ) {left lba : ℕ} {es : List DirEntry} (onward : Search)
    → Sectors disk left lba es
    → find_sectors disk name left lba onward ≡ first name es onward
unfolding find_sectors first
find_sectors-first name onward none_left = refl
find_sectors-first {disk = disk} name onward
      (sector {left = left} {lba = lba} {es = es} bytes e s) =
    let rest = find_sectors-first name onward s in
    let found = find_in-visible name (entries_in bytes) (first name es onward) in
    rw (e, rest, first-append name (visible (entries_in bytes)) es onward) found

find_clusters-first :
    {disk : Disk} {f : Fat} (fuel : ℕ) (name : List ℕ) {cluster n : ℕ} {es : List DirEntry}
    → Listed disk f cluster es n
    → n < fuel
    → find_clusters fuel disk f name cluster ≡ first name es no_entry
unfolding find_clusters first
find_clusters-first zero name l enough = absurd (omega arith)
find_clusters-first (suc fuel) name (finish e) enough = rw e refl
find_clusters-first {disk = disk} {f = f} (suc fuel) name
      (link {cluster = cluster} {next = next} {es = es} {rest = rest} e s to_next l) enough =
    let onward = find_clusters-first fuel name l (omega arith) in
    rw (e, to_next, onward, first-append name es rest no_entry)
      (find_sectors-first name (first name rest no_entry) s)

-- The entry at a place of the list, and otherwise what comes with the number of entries passed.
pub pick : (index found : ℕ) → List DirEntry → (ℕ → Search) → Search
pick index found [] otherwise = otherwise found
pick index found (e ∷ es) otherwise =
    let rest = pick index (found + 1) es otherwise in
    if found == index then hit (dir_of e) else rest

pick-append :
    (index found : ℕ) (xs ys : List DirEntry) (otherwise : ℕ → Search)
    → pick index found (xs ++ ys) otherwise
      ≡ pick index found xs (λ more. pick index more ys otherwise)
unfolding pick
pick-append index found [] ys otherwise = refl
pick-append index found (e ∷ xs) ys otherwise =
    rw (pick-append index (found + 1) xs ys otherwise) refl

index_in-visible :
    (index found : ℕ) (es : List DirEntry) (otherwise : ℕ → Search)
    → on_count (index_in index found es) otherwise ≡ pick index found (visible es) otherwise
unfolding index_in visible pick
index_in-visible index found [] otherwise = refl
index_in-visible index found (e ∷ es) otherwise =
    let rest = index_in-visible index found es otherwise in
    let passed = index_in-visible index (found + 1) es otherwise in
    elim (Bool-cases (is_visible e)) [
      | inr hidden ↦ rw hidden rest
      | inl shown ↦ elim (Bool-cases (found == index)) [
        | inl m ↦ rw (shown, m) refl
        | inr m ↦ rw (shown, m) passed
      ]
    ]

index_sectors-pick :
    {disk : Disk} (index found : ℕ) {left lba : ℕ} {es : List DirEntry} (onward : ℕ → Search)
    → Sectors disk left lba es
    → index_sectors disk index left lba found onward ≡ pick index found es onward
unfolding index_sectors pick
index_sectors-pick index found onward none_left = refl
index_sectors-pick {disk = disk} index found onward
      (sector {left = left} {lba = lba} {es = es} bytes e s) =
    let rest = λ (more : ℕ). index_sectors-pick index more onward s in
    let found_in =
      index_in-visible index found (entries_in bytes) (λ more. pick index more es onward) in
    rw (e, pick-append index found (visible (entries_in bytes)) es onward, ← found_in)
      (ap (on_count (index_in index found (entries_in bytes))) (fun_ext rest))

index_clusters-pick :
    {disk : Disk} {f : Fat} (fuel index found : ℕ) {cluster n : ℕ} {es : List DirEntry}
    → Listed disk f cluster es n
    → n < fuel
    → index_clusters fuel disk f index found cluster ≡ pick index found es (λ more. no_entry)
unfolding index_clusters pick
index_clusters-pick zero index found l enough = absurd (omega arith)
index_clusters-pick (suc fuel) index found (finish e) enough = rw e refl
index_clusters-pick {disk = disk} {f = f} (suc fuel) index found
      (link {cluster = cluster} {next = next} {es = es} {rest = rest} e s to_next l) enough =
    let onward = λ (more : ℕ). index_clusters-pick fuel index more l (omega arith) in
    rw (e, to_next, pick-append index found es rest (λ more. no_entry), fun_ext onward)
      (index_sectors-pick index found (λ more. pick index more rest (λ k. no_entry)) s)

-- `fat32_find_entry` and `fat32_readdir_index` on a directory that is listed.
pub find_entry-first :
    {disk : Disk} {f : Fat} (fuel : ℕ) (name : List ℕ) {cluster n : ℕ} {es : List DirEntry}
    → f.initialized ≡ true
    → Listed disk f cluster es n
    → n < fuel
    → find_entry fuel disk f cluster name ≡ first name es no_entry
unfolding find_entry
find_entry-first {disk = disk} {f = f} fuel name {cluster = cluster} ready l enough =
    ap (λ b. if not b then invalid else find_clusters fuel disk f name cluster) ready
    ∙ find_clusters-first fuel name l enough

pub readdir_index-pick :
    {disk : Disk} {f : Fat} (fuel index : ℕ) {cluster n : ℕ} {es : List DirEntry}
    → f.initialized ≡ true
    → Listed disk f cluster es n
    → n < fuel
    → readdir_index fuel disk f cluster index ≡ pick index 0 es (λ more. no_entry)
unfolding readdir_index
readdir_index-pick {disk = disk} {f = f} fuel index {cluster = cluster} ready l enough =
    ap (λ b. if not b then invalid else index_clusters fuel disk f index 0 cluster) ready
    ∙ index_clusters-pick fuel index 0 l enough
