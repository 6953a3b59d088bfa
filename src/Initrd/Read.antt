-- ===== src/Initrd/Read.antt =====
-- Reading a file of the initial RAM disk, `tar_read` of kernel/initrd.c.
use reta_os.Prelude.{
  ℕ, ◌+◌, ◌-◌, ◌≤◌, ◌≡◌, refl, sym, ap, ◌∙◌, false, some, List, ltb, leb, arith, Bool-cases, inl,
  inr, take, drop, length, part, part-behind, part-cut, take-drop-take, drop-drop, length-drop,
  length-take,
}
use reta_os.Vfs.Node.{to_int}
use reta_os.Initrd.{Meta, copy_out, tar_read}

copied_part :
    (img : List ℕ) (m : Meta) (offset : ℕ)
    → m.data_off + m.size ≤ length img
    → (n : ℕ) → offset + n ≤ m.size
    → copy_out img (m.data_off + offset) n
      ≡ some (
        to_int (length (part (drop m.data_off img) m.size offset n)),
        part (drop m.data_off img) m.size offset n,
      )
copied_part img m offset inside n le =
    let room : ltb (length img) (m.data_off + offset + n) ≡ false = ground (arith, inside, le) in
    let same : take n (drop (m.data_off + offset) img)
        ≡ part (drop m.data_off img) m.size offset n =
      ap (take n) (sym (drop-drop m.data_off offset img))
      ∙ take-drop-take m.size offset n (drop m.data_off img) le in
    let long : length (take n (drop (m.data_off + offset) img)) ≡ n = omega (
      arith,
      length-take n (drop (m.data_off + offset) img),
      length-drop (m.data_off + offset) img,
    ) in
    rw (room, ← same, long) refl

-- A file of the initial RAM disk that lies in the image is read by `tar_read` as its part of the
-- image from the offset on, as far as the file and the count go, and the result is the length as
-- a signed 32-bit number, which is negative from 2 GB on.
pub tar_read-part :
    (img : List ℕ) (m : Meta) (offset count : ℕ)
    → m.data_off + m.size ≤ length img
    → tar_read img (some m) offset count
      ≡ some (
        to_int (length (part (drop m.data_off img) m.size offset count)),
        part (drop m.data_off img) m.size offset count,
      )
unfolding tar_read
tar_read-part img m offset count inside =
    let content = drop m.data_off img in
    let long : length content ≡ length img - m.data_off = length-drop m.data_off img in
    let copied : (n : ℕ)
        → offset + n ≤ m.size
        → copy_out img (m.data_off + offset) n
          ≡ some (to_int (length (part content m.size offset n)), part content m.size offset n) =
      copied_part img m offset inside in
    elim (Bool-cases (leb m.size offset)) [
      | inl behind ↦
          let nothing = part-behind content m.size offset count (ground (arith, behind)) in
          rw (behind, nothing) refl
      | inr within ↦ elim (Bool-cases (ltb count (m.size - offset))) [
        | inl short ↦ rw (within, short) (copied count (ground (arith, short)))
        | inr whole ↦
            let same =
              part-cut content m.size offset count (omega (arith, long)) (ground (arith, whole)) in
            rw (within, whole)
              (copied (m.size - offset) (ground (arith, within))
                ∙ ap (λ l. some (to_int (length l), l)) same)
      ]
    ]
