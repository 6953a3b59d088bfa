-- ===== src/Fat32/Dir/Listing/Agree.antt =====
-- `fat32_find_entry` of fs/fat32.c finds what `fat32_readdir_index` lists.
use reta_os.Prelude.{
  ℕ, zero, suc, ◌+◌, ◌<◌, ◌≡◌, refl, sym, ◌∙◌, inl, inr, Bool, true, false, List, [], ◌∷◌, ◌==◌,
  arith, Bool-cases, subst, fun_ext,
}
use reta_os.Prelude.Int.{is_zero}
use reta_os.Text.{strcasecmp}
use reta_os.Fat32.{Disk, Fat}
use reta_os.Fat32.Entry.{DirEntry, Dir, entry_name, dir_of}
use reta_os.Fat32.Dir.{Search, hit, no_entry, find_entry, readdir_index}
use reta_os.Fat32.Dir.Listing.{Listed, matches, first, pick, find_entry-first, readdir_index-pick}

-- The names are the same but for the case of letters.
abbrev pub is_named : List ℕ → Dir → Bool
is_named name d = is_zero (strcasecmp d.name name)

-- The entry at `j` has another name.
abbrev pub Passed : List ℕ → (ℕ → Search) → ℕ → Type 0
Passed name entry_of j = (c : Dir) × (entry_of j ≡ hit c) × (is_named name c ≡ false)

-- `result` is the entry that `entry_of` gives first under the name, or `no_entry` if it gives none.
pub data Finds (name : List ℕ) (entry_of : ℕ → Search) (result : Search) : Type 0 where
  first_match :
      (i : ℕ) (d : Dir)
      → result ≡ hit d
      → entry_of i ≡ hit d
      → is_named name d ≡ true
      → ((j : ℕ) → j < i → Passed name entry_of j)
      → Finds name entry_of result
  no_match :
      result ≡ no_entry
      → ((i : ℕ) (d : Dir) → entry_of i ≡ hit d → is_named name d ≡ false)
      → Finds name entry_of result

hit-injective : (c d : Dir) → hit c ≡ hit d → c ≡ d
hit-injective c d e = ground (arith, e)

Passed-suc :
    (name : List ℕ) (entry_of : ℕ → Search) (i : ℕ)
    → Passed name entry_of 0
    → ((j : ℕ) → j < i → Passed name (λ k. entry_of (suc k)) j)
    → (j : ℕ) → j < suc i
    → Passed name entry_of j
Passed-suc name entry_of i here before zero h = here
Passed-suc name entry_of i here before (suc j) h = before j (omega arith)

unnamed-suc :
    (name : List ℕ) (entry_of : ℕ → Search) (c : Dir)
    → entry_of 0 ≡ hit c
    → is_named name c ≡ false
    → ((i : ℕ) (d : Dir) → entry_of (suc i) ≡ hit d → is_named name d ≡ false)
    → (i : ℕ) (d : Dir) → entry_of i ≡ hit d
    → is_named name d ≡ false
unnamed-suc name entry_of c at_zero other others zero d e =
    subst (λ x. is_named name x ≡ false) (hit-injective c d (sym at_zero ∙ e)) other
unnamed-suc name entry_of c at_zero other others (suc i) d e = others i d e

-- An entry of another name in front changes neither what is found nor the order.
Finds-suc :
    {name : List ℕ} {entry_of : ℕ → Search} {result : Search} (c : Dir)
    → entry_of 0 ≡ hit c
    → is_named name c ≡ false
    → Finds name (λ i. entry_of (suc i)) result
    → Finds name entry_of result
Finds-suc c at_zero other (first_match i d found e m before) =
    first_match (suc i) d found e m (Passed-suc _ _ i (c, at_zero, other) before)
Finds-suc c at_zero other (no_match none_found others) =
    no_match none_found (unnamed-suc _ _ c at_zero other others)

pick-suc :
    (found : ℕ) (e : DirEntry) (es : List DirEntry) (i : ℕ)
    → pick (found + 1 + i) (found + 1) es (λ more. no_entry)
      ≡ pick (found + suc i) found (e ∷ es) (λ more. no_entry)
unfolding pick
pick-suc found e es i =
    let differ : (found == found + suc i) ≡ false = ground arith in
    let same : found + 1 + i ≡ found + suc i = omega arith in rw (differ, same) refl

first-Finds :
    (name : List ℕ) (es : List DirEntry) (found : ℕ)
    → Finds name (λ i. pick (found + i) found es (λ more. no_entry)) (first name es no_entry)
unfolding first pick matches dir_of
first-Finds name [] found = no_match refl (λ i d e. absurd (ground (arith, e)))
first-Finds name (e ∷ es) found =
    let at_zero : (found == found + 0) ≡ true = ground arith in
    let rest =
      subst (λ g. Finds name g (first name es no_entry)) (fun_ext (pick-suc found e es))
        (first-Finds name es (found + 1)) in
    elim (Bool-cases (is_zero (strcasecmp (entry_name e) name))) [
      | inl m ↦
          first_match 0 (dir_of e) (rw m refl) (rw at_zero refl) m (λ j h. absurd (omega arith))
      | inr m ↦ rw m (Finds-suc (dir_of e) (rw at_zero refl) m rest)
    ]

-- In a directory whose chain of clusters ends and can be read, and with more fuel than clusters,
-- `fat32_find_entry` finds a name exactly as a search through what `fat32_readdir_index` gives
-- for 0, 1, 2 and so on would: the first entry that has the name but for the case of letters, and
-- -ENOENT if none has.
pub find_entry-Finds :
    {disk : Disk} {f : Fat} (fuel : ℕ) (name : List ℕ) {cluster n : ℕ} {es : List DirEntry}
    → f.initialized ≡ true
    → Listed disk f cluster es n
    → n < fuel
    → Finds name (readdir_index fuel disk f cluster) (find_entry fuel disk f cluster name)
find_entry-Finds {disk = disk} {f = f} fuel name {cluster = cluster} {es = es} ready l enough =
    let listing : (i : ℕ)
        → pick (0 + i) 0 es (λ more. no_entry) ≡ readdir_index fuel disk f cluster i =
      (λ i.
        let same : 0 + i ≡ i = omega arith in
        rw same (sym (readdir_index-pick fuel i ready l enough))) in
    subst (λ r. Finds name (readdir_index fuel disk f cluster) r)
      (sym (find_entry-first fuel name ready l enough))
      (subst (λ g. Finds name g (first name es no_entry)) (fun_ext listing) (first-Finds name es 0))
