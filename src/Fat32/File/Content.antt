-- ===== src/Fat32/File/Content.antt =====
-- What `fat32_read_file_data` of fs/fat32.c reads, against the contents of a chain of clusters.
use reta_os.Prelude.{
  ℕ, zero, suc, ◌+◌, ◌-◌, ◌^◌, ◌≤◌, ◌<◌, ◌≡◌, refl, sym, ap, subst, append-nil, append_assoc, ◌∙◌,
  ◌⊎◌, inl, inr, true, false, Option, some, List, [], ◌++◌, ltb, leb, ◌==◌, if◌then◌else◌, take,
  drop, length, arith, Bool-cases, length-drop, take_nil, drop_nil, take_all, drop_all, take-append,
  drop-append,
}
use reta_os.Vfs.Node.{to_int}
use reta_os.Fat32.{Disk, Fat, u32, is_eof_cluster, first_sector_of_cluster, next_cluster}
use reta_os.Fat32.File.{bytes_per_cluster, skip, read_clusters, read_file_data, Outcome, bytes}

-- The table leads from `cluster` through the clusters of the list to an end mark; the disk gives the
-- contents of each, which `contents` has one after another.
pub data Chain (disk : Disk) (f : Fat) : ℕ → List ℕ → ℕ → Type 0 where
  finish : (cluster : ℕ) → is_eof_cluster cluster ≡ true → Chain disk f cluster [] 0
  link :
      {cluster next n : ℕ} {rest : List ℕ} (buffer : List ℕ)
      → is_eof_cluster cluster ≡ false
      → next_cluster f cluster ≡ some next
      → disk (first_sector_of_cluster f cluster) f.boot.sectors_per_cluster ≡ some buffer
      → length buffer ≡ bytes_per_cluster f
      → Chain disk f next rest n
      → Chain disk f cluster (buffer ++ rest) (suc n)

-- The bytes of the first part and then those of the second.
abbrev pub less : ℕ → ℕ → ℕ
less a b = if ltb a b then a else b

take-drop-append :
    (from remaining : ℕ) (xs ys : List ℕ)
    → from ≤ length xs
    → take remaining (drop from (xs ++ ys))
      ≡ take (less remaining (length xs - from)) (drop from xs)
        ++ take (remaining - (less remaining (length xs - from))) ys
take-drop-append from remaining xs ys h =
    let room = length xs - from in
    let none_left : from - length xs ≡ 0 = omega arith in
    let long : length (drop from xs) ≡ room = length-drop from xs in
    let split : take remaining (drop from (xs ++ ys))
        ≡ take remaining (drop from xs) ++ take (remaining - room) ys =
      rw (drop-append from xs ys, none_left)
        (rw (← long) (take-append remaining (drop from xs) ys)) in
    split ∙ elim (Bool-cases (ltb remaining room)) [
      | inl short ↦
          let same : remaining - room ≡ remaining - remaining = ground arith in
          rw (short, same) refl
      | inr whole ↦
          rw
            (
              whole,
              take_all remaining (drop from xs) (ground (arith, long)),
              take_all room (drop from xs) (ground (arith, long)),
            )
            refl
    ]

bytes_per_cluster-lt : (f : Fat) → bytes_per_cluster f < 2 ^ 32
unfolding bytes_per_cluster
bytes_per_cluster-lt f = omega arith

read_clusters-Chain :
    {disk : Disk} {f : Fat} (fuel : ℕ) {cluster n : ℕ} {contents : List ℕ} (from remaining : ℕ)
    (out : List ℕ) (result : Option Outcome)
    → Chain disk f cluster contents n
    → from < bytes_per_cluster f
    → n < fuel
    → some (bytes (out ++ take remaining (drop from contents))) ≡ result
    → read_clusters fuel disk f cluster from remaining out ≡ result
unfolding read_clusters
read_clusters-Chain zero from remaining out result c inside enough e = absurd (omega arith)
read_clusters-Chain (suc fuel) from remaining out result (finish cluster eof) inside enough e =
    let nothing : out ++ take remaining (drop from []) ≡ out =
      rw (drop_nil {A = ℕ} from, take_nil {A = ℕ} remaining) (append-nil out) in
    let e' : some (bytes out) ≡ result = ap (λ l. some (bytes l)) (sym nothing) ∙ e in
    elim (Bool-cases (remaining == 0)) [ inl z ↦ rw z e' | inr z ↦ rw (z, eof) e' ]
read_clusters-Chain {disk = disk} {f = f} (suc fuel) from remaining out result
      (link {cluster = cluster} {next = next} {rest = rest} buffer more to_next here size c) inside
      enough e =
    elim (Bool-cases (remaining == 0)) [
      | inl z ↦
          let zero_left : remaining ≡ 0 = ground (arith, z) in
          let nothing : out ++ take remaining (drop from (buffer ++ rest)) ≡ out =
            rw zero_left (append-nil out) in
          rw z (ap (λ l. some (bytes l)) (sym nothing) ∙ e)
      | inr bytes_left ↦
          let room = length buffer - from in
          let room_fits : u32 (bytes_per_cluster f + 2 ^ 32 - from) ≡ room =
            ground (arith, bytes_per_cluster-lt f, size) in
          let amount = less remaining room in
          let parts = take-drop-append from remaining buffer rest (omega (arith, size)) in
          let whole : (out ++ take amount (drop from buffer)) ++ take (remaining - amount) rest
              ≡ out ++ take remaining (drop from (buffer ++ rest)) =
            append_assoc out _ _ ∙ ap (λ l. out ++ l) (sym parts) in
          let rest_of =
            read_clusters-Chain fuel 0 (remaining - amount) (out ++ take amount (drop from buffer))
              result c (omega arith) (omega arith) (ap (λ l. some (bytes l)) whole ∙ e) in
          rw (bytes_left, more, here, to_next, room_fits) rest_of
    ]

-- Where the loop to the starting cluster stops: what is left to skip lies in the cluster reached, or
-- behind the end of the chain.
abbrev Skipped : Disk → Fat → (offset : ℕ) → List ℕ → ℕ → ℕ × ℕ → Type 0
Skipped disk f offset contents bound (cluster, at) =
    (rest : List ℕ) × (n : ℕ) × Chain disk f cluster rest n
    × (n ≤ bound)
    × (at ≤ offset)
    × (drop (offset - at) rest ≡ contents)
    × ((offset - at < bytes_per_cluster f) ⊎ ((is_eof_cluster cluster ≡ true) × (contents ≡ [])))

skip-Chain :
    {disk : Disk} {f : Fat} (fuel : ℕ) {cluster n : ℕ} {contents : List ℕ} (offset at bound : ℕ)
    → Chain disk f cluster contents n
    → n ≤ bound
    → n < fuel
    → at ≤ offset
    → offset + bytes_per_cluster f < 2 ^ 32
    → (r : ℕ × ℕ) × (skip fuel f offset cluster at ≡ some r)
      × Skipped disk f offset (drop (offset - at) contents) bound r
unfolding skip
skip-Chain zero offset at bound c le enough low small = absurd (omega arith)
skip-Chain {f = f} (suc fuel) {cluster = cluster} offset at bound (finish _ eof) le enough low
      small =
    (
      (cluster, at),
      elim (Bool-cases (leb (u32 (at + bytes_per_cluster f)) offset)) [
        | inl e ↦ rw (e, eof) refl
        | inr e ↦ rw e refl
      ],
      ([], 0, finish cluster eof, le, low, refl, inr (eof, drop_nil (offset - at))),
    )
skip-Chain {disk = disk} {f = f} (suc fuel) offset at bound
      (link {cluster = cluster} {n = n} {rest = rest} buffer more to_next here size c) le enough low
      small =
    let fits : u32 (at + bytes_per_cluster f) ≡ at + bytes_per_cluster f = ground arith in
    elim (Bool-cases (leb (at + bytes_per_cluster f) offset)) [
      | inr stay ↦ (
        (cluster, at),
        rw (fits, stay) refl,
        (
          buffer ++ rest,
          suc n,
          link buffer more to_next here size c,
          le,
          low,
          refl,
          inl (ground (arith, stay)),
        ),
      )
      | inl go ↦
          let (r, e, s) =
            skip-Chain fuel offset (at + bytes_per_cluster f) bound c (omega arith) (omega arith)
              (ground (arith, go)) small in
          let dropped : drop (offset - (at + bytes_per_cluster f)) rest
              ≡ drop (offset - at) (buffer ++ rest) =
            let gone = drop_all (offset - at) buffer (ground (arith, go, size)) in
            let left : offset - at - length buffer ≡ offset - (at + bytes_per_cluster f) =
              omega (arith, size) in
            rw (drop-append (offset - at) buffer rest, gone, left) refl in
          (
            r,
            rw (fits, go, more, to_next) e,
            subst (λ l. Skipped disk f offset l bound r) dropped s,
          )
    ]

read_clusters-ended :
    (disk : Disk) (f : Fat) (fuel cluster from size : ℕ)
    → 0 < fuel
    → is_eof_cluster cluster ≡ true
    → read_clusters fuel disk f cluster from size [] ≡ some (bytes [])
unfolding read_clusters
read_clusters-ended disk f zero cluster from size h eof = absurd (omega arith)
read_clusters-ended disk f (suc fuel) cluster from size h eof = elim (Bool-cases (size == 0)) [
  | inl z ↦ rw z refl
  | inr z ↦ rw (z, eof) refl
]

after_skip :
    {disk : Disk} {f : Fat} (fuel bound offset size : ℕ) (contents : List ℕ) (r : ℕ × ℕ)
    → Skipped disk f offset contents bound r
    → bound < fuel
    → 0 < bytes_per_cluster f
    → read_clusters fuel disk f r.0 (offset - r.1) size [] ≡ some (bytes (take size contents))
after_skip {disk = disk} {f = f} fuel bound offset size contents (cluster, at)
      (rest, n, c, le, low, same, near) enough some_bytes =
    elim near [
      | inl inside ↦
          read_clusters-Chain fuel (offset - at) size [] _ c inside (omega arith)
            (ap (λ l. some (bytes (take size l))) same)
      | inr (eof, nothing) ↦
          let empty : take size contents ≡ [] = rw nothing (take_nil size) in
          read_clusters-ended disk f fuel cluster (offset - at) size (omega arith) eof
          ∙ ap (λ l. some (bytes l)) (sym empty)
    ]

-- For a file whose chain of clusters ends, `fat32_read_file_data` reads exactly the part of the
-- contents of the chain from the offset on, as far as they and the size go, and returns its
-- length as a signed 32-bit number.
pub read_file_data-Chain :
    {disk : Disk} {f : Fat} {first n : ℕ} {contents : List ℕ} (fuel offset size : ℕ)
    → f.initialized ≡ true
    → Chain disk f first contents n
    → n < fuel
    → 0 < bytes_per_cluster f
    → offset + bytes_per_cluster f < 2 ^ 32
    → read_file_data fuel disk true f first offset size
      ≡ some (to_int (length (take size (drop offset contents))), take size (drop offset contents))
unfolding read_file_data
read_file_data-Chain {disk = disk} {f = f} {n = n} {contents = contents} fuel offset size ready c
      enough some_bytes small =
    elim (Bool-cases (size == 0)) [
      | inl z ↦ let zero_size : size ≡ 0 = ground (arith, z) in rw (ready, z, zero_size) refl
      | inr z ↦
          let all : offset - 0 ≡ offset = omega arith in
          let (r, e, s) = skip-Chain fuel offset 0 n c (omega arith) enough (omega arith) small in
          let s' : Skipped disk f offset (drop offset contents) n r =
            subst (λ (k : ℕ). Skipped disk f offset (drop k contents) n r) all s in
          let reads = after_skip fuel n offset size (drop offset contents) r s' enough some_bytes in
          rw (z, e, reads, ready) refl
    ]
