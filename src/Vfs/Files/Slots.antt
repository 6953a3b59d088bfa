-- ===== src/Vfs/Files/Slots.antt =====
-- How kernel/vfs.c gives out the slots of its descriptor table.
use reta_os.Prelude.{
  ℕ, zero, suc, ◌≡◌, refl, ap, ◌+◌, ◌<◌, ◌⊎◌, true, false, none, some, List, [], ◌∷◌, arith, get_or,
  set, length, leb, Bool-cases, inl, inr, if◌then◌else◌, ◌∙◌,
}
use reta_os.Prelude.Int.{ℤ, pos}
use reta_os.Vfs.Node.{Node, Vfs, named, max_open_files, zero_node, any_of, o_append}
use reta_os.Vfs.Files.{descriptor, free_slot, install, close, put_file}
use reta_os.Vfs.Files.Buffered.{get_or-set, set-set}

-- Slots before the `n`-th are taken.
abbrev pub Taken : List Node → ℕ → Type 0
Taken ns n = (j : ℕ) → j < n → named (get_or ns j zero_node) ≡ true

-- The search for a slot gives the free slot of the lowest number, or nothing where all slots are
-- taken.
free_slot-lowest :
    (ns : List Node) (from : ℕ)
    → ((free_slot ns from ≡ none) × Taken ns (length ns))
      ⊎ ((k : ℕ) × (free_slot ns from ≡ some (from + k))
          × (k < length ns)
          × (named (get_or ns k zero_node) ≡ false)
          × Taken ns k)
unfolding free_slot
free_slot-lowest [] from = inl (refl, λ j h. elim h [ ])
free_slot-lowest (n ∷ ns) from = elim (Bool-cases (named n)) [
  | inr free ↦ inr (0, rw free (ground arith), omega arith, free, λ j h. absurd (omega arith))
  | inl used ↦ elim (free_slot-lowest ns (from + 1)) [
    | inl (e, taken) ↦ inl (rw (used, e) refl, λ j. behind ns n used (length ns) taken j)
    | inr (k, e, range, free, taken) ↦
        inr (suc k, rw (used, e) (ground arith), omega arith, free, λ j. behind ns n used k taken j)
  ]
]
  where
    behind :
        (ns : List Node) (n : Node) → named n ≡ true → (k : ℕ) → Taken ns k → Taken (n ∷ ns) (suc k)
    behind ns n used k taken zero h = used
    behind ns n used k taken (suc j) h = taken j (omega arith)

set_self :
    (ns : List Node) (i : ℕ) (n : Node)
    → get_or ns i zero_node ≡ n
    → i < length ns
    → set ns i n ≡ ns
set_self [] i n e h = refl
set_self (m ∷ ns) zero n e h = ap (λ x. x ∷ ns) (ground (arith, e))
set_self (m ∷ ns) (suc i) n e h = ap (λ l. m ∷ l) (set_self ns i n e (omega arith))

close-put_file :
    (v : Vfs) (fd : ℕ) (node : Node)
    → fd < max_open_files
    → length v.open_files ≡ max_open_files
    → get_or v.open_files fd zero_node ≡ zero_node
    → named node ≡ true
    → node.ops.close_node ≡ none
    → close (put_file v fd node) (pos fd) ≡ (pos 0, v)
unfolding close descriptor put_file
close-put_file v fd node range slots empty has_name no_close =
    let in_range : leb max_open_files fd ≡ false = ground (arith, range) in
    let stored = get_or-set v.open_files fd node (omega arith) in
    let back : set (set v.open_files fd node) fd zero_node ≡ v.open_files =
      set-set v.open_files fd node zero_node
      ∙ set_self v.open_files fd zero_node empty (omega arith) in
    rw (close, stored, has_name, in_range, back, no_close) refl

-- Installing a named file that has no open and close functions of its own into an empty slot of
-- the table of 32 succeeds with the number of the slot, and closing that gives the state from
-- before.
close-install :
    (v : Vfs) (fd flags : ℕ) (node : Node)
    → fd < max_open_files
    → length v.open_files ≡ max_open_files
    → get_or v.open_files fd zero_node ≡ zero_node
    → named node ≡ true
    → node.ops.open_node ≡ none
    → node.ops.close_node ≡ none
    → ((install v fd flags node).0 ≡ pos fd)
      × (close (install v fd flags node).1 (pos fd) ≡ (pos 0, v))
unfolding install
close-install v fd flags node range slots empty has_name no_open no_close =
    let placed = record node { position = if any_of flags o_append then node.size else 0 } in
    let installed : install v fd flags node ≡ (pos fd, put_file v fd placed) =
      install_plain (pos fd, put_file v fd placed) refl in
    rw (installed) (refl, close-put_file v fd placed range slots empty has_name no_close)
  where
    install_plain :
        (r : ℤ × Vfs)
        → (
          pos fd,
          put_file v fd (record node { position = if any_of flags o_append then node.size else 0 }),
        )
          ≡ r
        → install v fd flags node ≡ r
    install_plain r e = rw (install, no_open) e
