-- ===== src/Fat32/File.antt =====
-- `fat32_read_file_data` of fs/fat32.c. The loops over the chain of clusters take fuel, since the
-- table may hold a cycle; `none` is fuel that ran out, or a read outside the table.
pub mod Content
use reta_os.Prelude.{
  ℕ, zero, suc, ◌+◌, ◌-◌, ◌*◌, ◌%◌, ◌^◌, Bool, true, false, not, ◌&&◌, ◌||◌, Option, none, some,
  List, [], ◌∷◌, ◌++◌, ltb, leb, ◌==◌, if◌then◌else◌, take, drop, length,
}
use reta_os.Prelude.Int.{ℤ, pos, negsuc, minus}
use reta_os.Prelude.Maybe.{◌>>=◌}
use reta_os.Vfs.Node.{to_int}
use reta_os.Fat32.{Disk, Fat, u32, is_eof_cluster, first_sector_of_cluster, next_cluster}

abbrev pub eio : ℕ
eio = 5

abbrev pub enomem : ℕ
enomem = 12

abbrev pub einval : ℕ
einval = 22

unfoldable pub bytes_per_cluster : Fat → ℕ
bytes_per_cluster f = u32 (f.boot.sectors_per_cluster * f.boot.bytes_per_sector)

-- The loop to the starting cluster: the cluster, and the offset in the file of its first byte.
pub skip : ℕ → Fat → (offset cluster current_offset : ℕ) → Option (ℕ × ℕ)
skip zero f offset cluster current_offset = none
skip (suc fuel) f offset cluster current_offset =
    let further = (do
      next ← next_cluster f cluster
      skip fuel f offset next (u32 (current_offset + bytes_per_cluster f))) in
    if leb (u32 (current_offset + bytes_per_cluster f)) offset && not (is_eof_cluster cluster)
    then further
    else some (cluster, current_offset)

-- The outcome of the reading loop: the bytes in the caller's buffer, or -EIO.
pub data Outcome : Type 0 where
  bytes : List ℕ → Outcome
  io_error : Outcome

-- A cluster that cannot be read ends the loop.
abbrev pub on_buffer : Option (List ℕ) → (List ℕ → Option Outcome) → Option Outcome
on_buffer none copy = some io_error
on_buffer (some buffer) copy = copy buffer

-- The reading loop; `out` are the bytes copied so far.
pub read_clusters :
    ℕ → Disk → Fat → (cluster cluster_offset remaining : ℕ) (out : List ℕ) → Option Outcome
read_clusters zero disk f cluster cluster_offset remaining out = none
read_clusters (suc fuel) disk f cluster cluster_offset remaining out =
    let room = u32 (bytes_per_cluster f + 2 ^ 32 - cluster_offset) in
    let to_read = if ltb remaining room then remaining else room in
    let round =
      on_buffer (disk (first_sector_of_cluster f cluster) f.boot.sectors_per_cluster) (λ buffer. do
        next ← next_cluster f cluster
        read_clusters fuel disk f next 0 (remaining - to_read)
            (out ++ take to_read (drop cluster_offset buffer))) in
    if remaining == 0 || is_eof_cluster cluster then some (bytes out) else round

-- `fat32_read_file_data`: `memory` tells whether `kmalloc` gives the cluster buffer. The result, for
-- the bytes read their number as a 32-bit `ssize_t`, and what stands in the caller's buffer, where it
-- is not an error.
pub read_file_data :
    ℕ → Disk → (memory : Bool) → Fat → (first_cluster offset size : ℕ) → Option (ℤ × List ℕ)
read_file_data fuel disk memory f first_cluster offset size =
    if not f.initialized
    then some (minus einval, [])
    else (if size == 0
        then some (pos 0, [])
        else (if not memory then some (minus enomem, []) else (do
          (cluster, current_offset) ← skip fuel f offset first_cluster 0
          outcome ← read_clusters fuel disk f cluster (offset - current_offset) size []
          some (elim outcome [
            | io_error ↦ (minus eio, [])
            | bytes out ↦ (to_int (length out), out)
          ]))))
