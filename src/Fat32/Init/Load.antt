-- ===== src/Fat32/Init/Load.antt =====
-- The loop of `fat32_init` in fs/fat32.c that reads the table in chunks.
use reta_os.Prelude.{
  ℕ, zero, suc, ◌+◌, ◌-◌, ◌*◌, ◌^◌, ◌≤◌, ◌<◌, ◌≡◌, refl, sym, ap, ◌∙◌, inl, inr, false, Option,
  some, List, [], ◌∷◌, ◌++◌, ltb, ◌==◌, take, drop, length, arith, Bool-cases, length-take,
  length-drop, length-append, take_nil, take_all, drop_all, take-append, drop-append, drop-drop,
  append_assoc, append-nil, Option-cases, subst,
}
use reta_os.Fat32.{Disk, u32}
use reta_os.Fat32.Init.{Loaded, loaded, unreadable, overrun, chunk, put_bytes, load}

-- Sectors of 512 bytes of an image, from `lba` on.
abbrev pub sectors : List ℕ → (lba count : ℕ) → List ℕ
sectors image lba count = take (count * 512) (drop (lba * 512) image)

length-sectors :
    (image : List ℕ) (lba count : ℕ)
    → (lba + count) * 512 ≤ length image
    → length (sectors image lba count) ≡ count * 512
length-sectors image lba count h =
    omega (arith, length-take (count * 512) (drop (lba * 512) image), length-drop (lba * 512) image)

take-split : (a b : ℕ) (xs : List ℕ) → take (a + b) xs ≡ take a xs ++ take b (drop a xs)
take-split zero b xs = let same : 0 + b ≡ b = omega arith in rw same refl
take-split (suc a) b [] = rw (take_nil {A = ℕ} b, take_nil {A = ℕ} (suc a + b)) refl
take-split (suc a) b (x ∷ xs) =
    let same : suc a + b ≡ suc (a + b) = omega arith in
    rw same (ap (λ l. x ∷ l) (take-split a b xs))

sectors-append :
    (image : List ℕ) (lba first rest : ℕ)
    → sectors image lba (first + rest) ≡ sectors image lba first ++ sectors image (lba + first) rest
sectors-append image lba first rest =
    let parts : (first + rest) * 512 ≡ first * 512 + rest * 512 = omega arith in
    let later : (lba + first) * 512 ≡ lba * 512 + first * 512 = omega arith in
    rw (parts, later, take-split (first * 512) (rest * 512) (drop (lba * 512) image))
      (rw (drop-drop (lba * 512) (first * 512) image) refl)

-- Bytes put behind the first part of a block replace as many of the second.
put_bytes-append :
    (front back bytes : List ℕ)
    → put_bytes (front ++ back) (length front) bytes ≡ (front ++ bytes) ++ drop (length bytes) back
put_bytes-append front back bytes =
    let none_more : length front - length front ≡ 0 = omega arith in
    let rest : length front + length bytes - length front ≡ length bytes = omega arith in
    let gone : length front ≤ length front + length bytes = omega arith in
    let whole : length front ≤ length front = omega arith in
    let start : take (length front) (front ++ back) ≡ front =
      rw (take-append (length front) front back, none_more, take_all (length front) front whole)
        (append-nil front) in
    let end : drop (length front + length bytes) (front ++ back) ≡ drop (length bytes) back =
      rw
        (
          drop-append (length front + length bytes) front back,
          rest,
          drop_all (length front + length bytes) front gone,
        )
        refl in
    rw (start, end) (sym (append_assoc front bytes (drop (length bytes) back)))

-- The reads of the disk give the sectors of the image, as far as it goes.
abbrev pub Reads : Disk → List ℕ → Type 0
Reads disk image =
    (lba count : ℕ)
    → count < 256
    → (lba + count) * 512 ≤ length image
    → disk lba count ≡ some (sectors image lba count)

-- A chunk is not empty, not too large for the driver, and no more than what is left.
chunk-le : (left : ℕ) → 0 < left → (0 < chunk left) × (chunk left < 256) × (chunk left ≤ left)
chunk-le left some_left = (ground arith, ground arith, ground arith)

module _ (disk : Disk) (image : List ℕ) (reads : Reads disk image) where
  pub load-sectors :
      (fuel left lba at : ℕ) (front back : List ℕ) (result : Option Loaded)
      → left < fuel
      → (lba + left) * 512 ≤ length image
      → lba + left < 2 ^ 32
      → length back ≡ left * 512
      → at ≡ length front
      → some (loaded (front ++ sectors image lba left)) ≡ result
      → load fuel disk 512 left lba at (front ++ back) ≡ result
  unfolding load
  load-sectors zero left lba at front back result enough inside fits size place e =
      absurd (omega arith)
  load-sectors (suc fuel) left lba at front back result enough inside fits size place e =
      elim (Bool-cases (left == 0)) [
        | inl z ↦
            let nothing : left ≡ 0 = ground (arith, z) in
            let no_back : back ≡ [] =
              elim back as (λ b. length b ≡ left * 512 → b ≡ []) [
                | [] ↦ λ h. refl
                | x ∷ xs ↦ λ h. absurd (omega (arith, h))
              ]
                size in
            rw (z, no_back)
              (subst (λ (k : ℕ). some (loaded (front ++ sectors image lba k)) ≡ result) nothing e)
        | inr more ↦
            let n = chunk left in
            let (some_read, small, le) = chunk-le left (ground (arith, more)) in
            let got = sectors image lba n in
            let long : length got ≡ n * 512 = length-sectors image lba n (omega arith) in
            let room : ltb (length (front ++ back)) (at + length got) ≡ false =
              ground (arith, length-append front back, long) in
            let next_lba : u32 (lba + n) ≡ lba + n = omega arith in
            let sum : n + (left - n) ≡ left = omega arith in
            let whole : (front ++ got) ++ sectors image (lba + n) (left - n)
                ≡ front ++ sectors image lba left =
              append_assoc front got _
              ∙ ap (λ l. front ++ l)
                  (sym (sectors-append image lba n (left - n))
                    ∙ ap (λ (k : ℕ). sectors image lba k) sum) in
            let rest =
              load-sectors fuel (left - n) (lba + n) (at + n * 512) (front ++ got)
                (drop (length got) back) result (omega arith) (omega arith) (omega arith)
                (omega (arith, length-drop (length got) back, long))
                (omega (arith, length-append front got, long))
                (ap (λ l. some (loaded l)) whole ∙ e) in
            rw
              (
                more,
                reads lba n small (omega arith),
                room,
                next_lba,
                place,
                put_bytes-append front back got,
                ← place,
              )
              rest
      ]

-- The loop of `fat32_init` that reads the table ends, whatever the disk gives: for fuel above the
-- number of sectors left it has an outcome.
pub load-ends :
    (disk : Disk) (bytes_per_sector : ℕ) (fuel left lba at : ℕ) (block : List ℕ)
    → left < fuel
    → (r : Loaded) × (load fuel disk bytes_per_sector left lba at block ≡ some r)
unfolding load
load-ends disk bytes_per_sector zero left lba at block enough = absurd (omega arith)
load-ends disk bytes_per_sector (suc fuel) left lba at block enough =
    elim (Bool-cases (left == 0)) [
      | inl z ↦ (loaded block, rw z refl)
      | inr more ↦ elim (Option-cases (disk lba (chunk left))) [
        | inl e ↦ (unreadable, rw (more, e) refl)
        | inr (bytes, e) ↦ elim (Bool-cases (ltb (length block) (at + length bytes))) [
          | inl out ↦ (overrun, rw (more, e, out) refl)
          | inr inside ↦
              let (some_read, small, le) = chunk-le left (ground (arith, more)) in
              let (r, same) =
                load-ends disk bytes_per_sector fuel (left - chunk left) (u32 (lba + chunk left))
                  (at + chunk left * bytes_per_sector) (put_bytes block at bytes) (omega arith) in
              (r, rw (more, e, inside) same)
        ]
      ]
    ]
