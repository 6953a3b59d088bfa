-- ===== src/Initrd/Walk.antt =====
-- The loop of `mount_initrd` in kernel/initrd.c over the entries of the archive.
use reta_os.Prelude.{
  ℕ, zero, suc, ◌+◌, ◌-◌, ◌*◌, ◌^◌, ◌<◌, ◌≤◌, ◌≡◌, refl, ap, ◌∙◌, ◌&&◌, not, true, false, Bool,
  none, some, List, ◌==◌, leb, arith, Bool-cases, inl, inr, get_or,
}
use reta_os.Vfs.Node.{Ptr, u32}
use reta_os.Initrd.Mount.{next_off, walk}
use reta_os.Initrd.{Store, header_at, add_entry}

-- The condition of the loop.
abbrev pub has_entry : (img : List ℕ) → (bytes off : ℕ) → Bool
has_entry img bytes off = leb (u32 (off + 512)) bytes && not (get_or img off 0 == 0)

next_off-grows :
    (off size : ℕ)
    → off + 512 < 2 ^ 31
    → size < 2 ^ 30
    → (off + 512 ≤ next_off off size) × (next_off off size < 2 ^ 31 + 2 ^ 30)
unfolding next_off
next_off-grows off size low small = (omega arith, omega arith)

-- Along the first rounds of the walk from `off` on, no header has a size of 1 GB or more.
unfoldable pub SmallHeaders : ℕ → (img : List ℕ) → (bytes off : ℕ) → Type 0
SmallHeaders zero img bytes off = Unit {0}
SmallHeaders (suc rounds) img bytes off =
    has_entry img bytes off ≡ true
    → ((header_at img off).size < 2 ^ 30)
      × SmallHeaders rounds img bytes (next_off off (header_at img off).size)

no_entry :
    (img : List ℕ) (bytes off : ℕ)
    → off < 2 ^ 31 + 2 ^ 30
    → bytes < off
    → has_entry img bytes off ≡ false
no_entry img bytes off low past =
    let beyond : leb (u32 (off + 512)) bytes ≡ false = ground (arith, past) in rw beyond refl

-- The walk of `mount_initrd` over an image of less than 2 GB ends if none of the headers that it
-- comes to in its first rounds has a size of 1 GB or more: one round more than the 512-byte
-- blocks from the offset to behind the end of the image is enough.
pub walk-ends :
    (rounds : ℕ) (img : List ℕ) (bytes : ℕ) (root : Ptr) (off : ℕ) (st : Store)
    → bytes < 2 ^ 31
    → SmallHeaders rounds img bytes off
    → off < 2 ^ 31 + 2 ^ 30
    → bytes < off + 512 * rounds
    → (made : Store) × (walk (suc rounds) img bytes root off st ≡ some made)
unfolding walk SmallHeaders
walk-ends zero img bytes root off st bounded small low enough =
    let past : has_entry img bytes off ≡ false =
      no_entry img bytes off low (omega (arith, enough)) in
    (st, rw past refl)
walk-ends (suc rounds) img bytes root off st bounded small low enough =
    elim (Bool-cases (has_entry img bytes off)) [
      | inr e ↦ (st, rw e refl)
      | inl e ↦
          let inside : off + 512 ≤ bytes = ground (arith, e) in
          let (here, further) = small e in
          let (after, low') = next_off-grows off (header_at img off).size (omega arith) here in
          let (made, goes) =
            walk-ends rounds img bytes root (next_off off (header_at img off).size)
              (add_entry root off (header_at img off) st) bounded further low' (omega arith) in
          (made, rw e goes)
    ]

-- Where the walk of `mount_initrd` reaches an entry whose size field says 2^32 - 512, it does not
-- end, however many rounds it is given.
pub walk-stuck :
    (fuel : ℕ) (img : List ℕ) (bytes : ℕ) (root : Ptr) (off : ℕ) (st : Store)
    → off < 2 ^ 32
    → has_entry img bytes off ≡ true
    → (header_at img off).size ≡ 2 ^ 32 - 512
    → walk fuel img bytes root off st ≡ none
unfolding walk next_off
walk-stuck zero img bytes root off st low entry size = refl
walk-stuck (suc fuel) img bytes root off st low entry size =
    let stays : next_off off (2 ^ 32 - 512) ≡ off = omega arith in
    let back : next_off off (header_at img off).size ≡ off = ap (next_off off) size ∙ stays in
    rw (entry, back)
      (walk-stuck fuel img bytes root off (add_entry root off (header_at img off) st) low entry
        size)
