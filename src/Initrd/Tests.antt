-- ===== src/Initrd/Tests.antt =====
-- Small archives for kernel/initrd.c.
use reta_os.Prelude.{ℕ, ◌≡◌, refl, none, some, List, [], ◌∷◌, ◌++◌, arith, replicate}
use reta_os.Prelude.Int.{pos}
use reta_os.Initrd.Mount.{walk, next_off}
use reta_os.Initrd.{Store, no_node, parse_octal, header_at, tar_read}
use reta_os.Initrd.Walk.{SmallHeaders, walk-ends, walk-stuck}
use reta_os.Initrd.Read.{tar_read-part}

abbrev store : Store
store = record { nodes = λ p. no_node; new_nodes = 8 ∷ 16 ∷ 24 ∷ 32 ∷ [] }

tar_read-part_example :
    tar_read (1 ∷ 2 ∷ 3 ∷ 4 ∷ 5 ∷ []) (some (record { size = 3; data_off = 1 })) 1 10
    ≡ some (pos 2, 3 ∷ 4 ∷ [])
tar_read-part_example =
    tar_read-part (1 ∷ 2 ∷ 3 ∷ 4 ∷ 5 ∷ []) (record { size = 3; data_off = 1 }) 1 10 (omega arith)

-- An archive with the file "a" of five bytes: its header, a block with its bytes, and a block of 0.
abbrev archive : List ℕ
archive =
    b'a' ∷ replicate 123 0
    ++ (replicate 10 b'0'
        ++ (b'5' ∷ replicate 377 0)
        ++ (1 ∷ 2 ∷ 3 ∷ 4 ∷ 5 ∷ replicate 507 0 ++ replicate 512 0))

archive-SmallHeaders : SmallHeaders 4 archive 1536 0
unfolding SmallHeaders header_at parse_octal next_off
archive-SmallHeaders entry = (omega arith, λ no_entry. absurd (ground (arith, no_entry)))

walk-ends_example : (made : Store) × (walk 5 archive 1536 8 0 store ≡ some made)
walk-ends_example =
    walk-ends 4 archive 1536 8 0 store (omega arith) archive-SmallHeaders (omega arith)
      (omega arith)

-- A header with the size 37777777000 in octal.
abbrev endless : List ℕ
endless =
    b'a' ∷ replicate 123 0
    ++ (b'3'
        ∷ b'7'
        ∷ b'7'
        ∷ b'7'
        ∷ b'7'
        ∷ b'7'
        ∷ b'7'
        ∷ b'7'
        ∷ b'0'
        ∷ b'0'
        ∷ b'0'
        ∷ replicate 377 0)

walk-stuck_example : walk 100 endless 512 8 0 store ≡ none
unfolding header_at parse_octal
walk-stuck_example = walk-stuck 100 endless 512 8 0 store (omega arith) refl refl
