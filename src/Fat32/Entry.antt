-- ===== src/Fat32/Entry.antt =====
-- Directory entries of fs/fat32.h, and their names as fs/fat32.c spells them.
use reta_os.Prelude.{
  ℕ, zero, suc, ◌+◌, ◌*◌, ◌≤◌, Bool, not, ◌&&◌, List, [], ◌∷◌, ◌++◌, ◌==◌, if◌then◌else◌, take,
  drop, get_or, length, arith, length-append, length-take,
}
use reta_os.Text.{tolower}
use reta_os.Fat32.{le16, le32}
use Prim.Native.Nat.{bit_and}

abbrev pub attr_hidden : ℕ
attr_hidden = 0x02

abbrev pub attr_system : ℕ
attr_system = 0x04

abbrev pub attr_volume_id : ℕ
attr_volume_id = 0x08

abbrev pub attr_directory : ℕ
attr_directory = 0x10

-- `fat32_dir_entry_t`, the fields that are read.
pub record DirEntry : Type 0 where
  pub name : List ℕ
  pub attributes : ℕ
  pub first_cluster_high : ℕ
  pub first_cluster_low : ℕ
  pub file_size : ℕ

-- The 32 bytes at byte `i` of a sector.
unfoldable pub entry_at : List ℕ → ℕ → DirEntry
entry_at sector i = record {
  name = take 11 (drop i sector);
  attributes = get_or sector (i + 11) 0;
  first_cluster_high = le16 sector (i + 20);
  first_cluster_low = le16 sector (i + 26);
  file_size = le32 sector (i + 28);
}

-- `count` entries from byte `i` on.
unfoldable pub entries_from : (count i : ℕ) → List ℕ → List DirEntry
entries_from zero i sector = []
entries_from (suc count) i sector = entry_at sector i ∷ entries_from count (i + 32) sector

abbrev pub entries_in : List ℕ → List DirEntry
entries_in sector = entries_from 16 0 sector

-- Neither empty, deleted, a volume label, hidden nor a system file.
unfoldable pub is_visible : DirEntry → Bool
is_visible e =
    let first = get_or e.name 0 0 in
    not (first == 0)
    && not (first == 0xE5)
    && bit_and e.attributes attr_volume_id == 0
    && bit_and e.attributes attr_hidden == 0
    && bit_and e.attributes attr_system == 0

-- The bytes that are no spaces, in lower case.
unfoldable pub squeeze : List ℕ → List ℕ
squeeze [] = []
squeeze (c ∷ cs) = let rest = squeeze cs in if c == b' ' then rest else tolower c ∷ rest

-- `entry_name`: the name, and behind a dot the extension if there is one.
unfoldable pub entry_name : DirEntry → List ℕ
entry_name e =
    squeeze (take 8 e.name)
    ++ (if get_or e.name 8 0 == b' ' then [] else b'.' ∷ squeeze (take 3 (drop 8 e.name)))

-- `fat32_dir_t`
pub record Dir : Type 0 where
  pub name : List ℕ
  pub size : ℕ
  pub cluster : ℕ
  pub attributes : ℕ

unfoldable pub dir_of : DirEntry → Dir
dir_of e = record {
  name = entry_name e;
  size = e.file_size;
  cluster = e.first_cluster_high * 65536 + e.first_cluster_low;
  attributes = e.attributes;
}

length-squeeze : (cs : List ℕ) → length (squeeze cs) ≤ length cs
unfolding squeeze
length-squeeze [] = omega arith
length-squeeze (c ∷ cs) = ground (arith, length-squeeze cs)

-- A name fits into the 13 bytes of `entry_name`, its terminator included.
length-entry_name : (e : DirEntry) → length (entry_name e) + 1 ≤ 13
unfolding entry_name
length-entry_name e = ground (
  arith,
  length-squeeze (take 8 e.name),
  length-squeeze (take 3 (drop 8 e.name)),
  length-take 8 e.name,
  length-take 3 (drop 8 e.name),
  length-append (squeeze (take 8 e.name)) [],
  length-append (squeeze (take 8 e.name)) (b'.' ∷ squeeze (take 3 (drop 8 e.name))),
)
