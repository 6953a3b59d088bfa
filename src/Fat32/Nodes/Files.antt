-- ===== src/Fat32/Nodes/Files.antt =====
-- Files of fs/fat32_vfs.c: what is read of them.
use reta_os.Prelude.{
  part, take-drop-take, part-behind, part-cut, ℕ, ◌+◌, ◌-◌, ◌^◌, ◌≤◌, ◌<◌, ◌≡◌, refl, ap, ◌∙◌, inl,
  inr, true, false, Option, some, List, [], ltb, leb, if◌then◌else◌, length, arith, Bool-cases,
}
use reta_os.Prelude.Int.{minus}
use reta_os.Fat32.{Disk, Fat}
use reta_os.Fat32.File.{bytes_per_cluster, read_file_data}
use reta_os.Fat32.File.Content.{Chain, read_file_data-Chain}
use reta_os.Fat32.Nodes.{Private, FatNode, ReadResult, on_private, after_read, read_file, read}
use reta_os.Vfs.Node.{einval, eisdir, u32, to_int}

-- What `fat32_read` gives for `bytes`: their number as a signed 32-bit number, they, and a node.
abbrev Gives : Option ReadResult → List ℕ → Type 0
Gives result bytes = (after : FatNode) × (result ≡ some (to_int (length bytes), bytes, after))

after_read-Gives :
    (node : FatNode) (p : Private) (offset : ℕ) (bytes : List ℕ)
    → Gives (after_read node p offset (some (to_int (length bytes), bytes))) bytes
unfolding after_read
after_read-Gives node p offset bytes = elim (Bool-cases (ltb (length bytes) (2 ^ 31))) [
  | inl short ↦
      (record node { priv = some (record p { pos = u32 (offset + length bytes) }) }, rw short refl)
  | inr long ↦ (node, rw long refl)
]

module _ {disk : Disk} {f : Fat} {contents : List ℕ} {n : ℕ} (fuel : ℕ) (node : FatNode)
    (p : Private) (ready : f.initialized ≡ true) (chain : Chain disk f p.cluster contents n)
    (enough : n < fuel) (some_bytes : 0 < bytes_per_cluster f) (whole : p.size ≤ length contents)
    (small : p.size + bytes_per_cluster f < 2 ^ 32) where
  after_read-part :
      (offset count : ℕ)
      → offset + count ≤ p.size
      → Gives
          (after_read node p offset (read_file_data fuel disk true f p.cluster offset count))
          (part contents p.size offset count)
  after_read-part offset count inside =
      let bytes = part contents p.size offset count in
      let same = take-drop-take p.size offset count contents inside in
      let (after, e) = after_read-Gives node p offset bytes in
      (
        after,
        ap (after_read node p offset)
              (read_file_data-Chain fuel offset count ready chain enough some_bytes (omega arith))
            ∙ ap (λ l. after_read node p offset (some (to_int (length l), l))) same
            ∙ e,
      )

  read_file-part :
      (offset count : ℕ)
      → offset + count < 2 ^ 32
      → Gives (read_file fuel disk true f node p offset count) (part contents p.size offset count)
  unfolding read_file
  read_file-part offset count fits = elim (Bool-cases (leb p.size offset)) [
    | inl behind ↦
        let nothing = part-behind contents p.size offset count (ground (arith, behind)) in
        (node, rw (behind, nothing) refl)
    | inr inside ↦
        let no_wrap : u32 (offset + count) ≡ offset + count = omega arith in
        elim (Bool-cases (ltb p.size (offset + count))) [
          | inl cut ↦
              let same = part-cut contents p.size offset count whole (ground (arith, cut)) in
              let (after, e) = after_read-part offset (p.size - offset) (ground (arith, inside)) in
              (after, rw (inside, no_wrap, cut, ← same) e)
          | inr short ↦
              let (after, e) = after_read-part offset count (ground (arith, short)) in
              (after, rw (inside, no_wrap, short) e)
        ]
  ]

-- If the table leads from the first cluster of a file through clusters that can all be read to an
-- end mark, and these hold at least as many bytes as the file has, then `fat32_read` gives the
-- part of the file from the offset on, as far as the file and the count go, and returns its
-- length as a signed 32-bit number, which is negative from 2 GB on. The driver is initialised,
-- `kmalloc` gives the buffer for a cluster, clusters are not empty, the file and a cluster are
-- together below 4 GB, the offset and the count too, and the fuel is more than the number of
-- clusters.
pub read-part :
    {disk : Disk} {f : Fat} {contents : List ℕ} {n : ℕ} (fuel : ℕ) (node : FatNode) (p : Private)
    (offset count : ℕ)
    → f.initialized ≡ true
    → node.priv ≡ some p
    → p.is_dir ≡ false
    → Chain disk f p.cluster contents n
    → n < fuel
    → 0 < bytes_per_cluster f
    → p.size ≤ length contents
    → p.size + bytes_per_cluster f < 2 ^ 32
    → offset + count < 2 ^ 32
    → (after : FatNode) × (read fuel disk true f node offset count
        ≡ some (
          to_int (length (part contents p.size offset count)),
          part contents p.size offset count,
          after,
        ))
unfolding read
read-part {disk = disk} {f = f} fuel node p offset count ready holds file chain enough some_bytes
      whole small fits =
    let rest = read_file fuel disk true f node in
    let (after, e) =
      read_file-part fuel node p ready chain enough some_bytes whole small offset count fits in
    (
      after,
      ap
            (λ t.
              on_private t (some (minus einval, [], node))
                (λ q. if q.is_dir then some (minus eisdir, [], node) else rest q offset count))
            holds
          ∙ ap (λ b. if b then some (minus eisdir, [], node) else rest p offset count) file
          ∙ e,
    )
