-- ===== src/Vfs/Dirs/Removal.antt =====
-- Why `vfs_remove` and `vfs_rmdir` of kernel/vfs.c remove nothing.
use reta_os.Prelude.{
  ℕ, zero, suc, ◌≡◌, refl, ◌≢◌, true, false, not, Option, none, some, List, [], ◌∷◌, arith, ◌==◌,
  if◌then◌else◌, Bool-cases, Option-cases, inl, inr,
}
use reta_os.Prelude.Int.{ℤ, pos, minus, is_neg, is_zero}
use reta_os.Prelude.Maybe.{◌>>=◌}
use reta_os.Vfs.Node.{Node, Vfs, Ptr, is_dir, eisdir, enotdir, eio, enotempty}
use reta_os.Vfs.Lookup.{Found, found, failed, unfinished, lookup}
use reta_os.Vfs.Lookup.Walks.{IsError, lookup-IsError}
use reta_os.Vfs.Dirs.{without, unlink, remove, rmdir, opendir, has_entries, stat}

abbrev pub Avoids : Ptr → List Ptr → Type 0
Avoids local [] = Unit {0}
Avoids local (p ∷ ps) = (p ≢ local) × Avoids local ps

-- No child list of a node in memory has the address of the local variable.
abbrev pub NotLinked : Vfs → Ptr → Type 0
NotLinked v local = (p : Ptr) → Avoids local (v.nodes p).children

without-Avoids : (local : Ptr) (ps : List Ptr) → Avoids local ps → without local ps ≡ none
unfolding without
without-Avoids local [] away = refl
without-Avoids local (p ∷ ps) away =
    let other : (p == local) ≡ false = ground (arith, away.0) in
    rw (other, without-Avoids local ps away.1) refl

-- An error, and an unchanged state, wherever there is a result.
abbrev pub Refused : Vfs → Option (ℤ × Vfs) → Type 0
Refused v none = Unit {0}
Refused v (some r) = (is_neg r.0 ≡ true) × (r.1 ≡ v)

minus_refuses : (v : Vfs) (e : ℕ) → e ≢ 0 → Refused v (some (minus e, v))
minus_refuses v zero nonzero = absurd (nonzero refl)
minus_refuses v (suc e) nonzero = (refl, refl)

unlink-refuses :
    (v : Vfs) (local : Ptr) (node : Node) → NotLinked v local → unlink v local node ≡ (minus 2, v)
unfolding unlink
unlink-refuses v local node away =
    ground (arith, without-Avoids local (v.nodes node.parent).children (away node.parent))

remove_found-refuses :
    (v : Vfs) (local : Ptr) (node : Node)
    → NotLinked v local
    → Refused v (if is_dir node.flags then some (minus eisdir, v) else some (unlink v local node))
remove_found-refuses v local node away =
    rw (unlink-refuses v local node away) (elim (Bool-cases (is_dir node.flags)) [
      | inl e ↦ rw e (refl, refl)
      | inr e ↦ rw e (refl, refl)
    ])

lookup-refuses :
    (v : Vfs) (f : Found) (k : Node → Option (ℤ × Vfs))
    → IsError f
    → ((node : Node) → Refused v (k node))
    → Refused v (elim f [ unfinished ↦ none | failed e ↦ some (minus e, v) | found node ↦ k node ])
lookup-refuses v unfinished k error rest = tt
lookup-refuses v (failed e) k error rest = minus_refuses v e error
lookup-refuses v (found n) k error rest = rest n

-- If no child list in memory holds the address of its local variable, `vfs_remove` returns an
-- error and changes nothing, wherever it has a result.
remove-refuses :
    (fuel : ℕ) (v : Vfs) (local : Ptr) (path : List ℕ)
    → NotLinked v local
    → Refused v (remove fuel v local path)
unfolding remove
remove-refuses fuel v local [] away = (refl, refl)
remove-refuses fuel v local (c ∷ path) away =
    lookup-refuses v (lookup fuel v (c ∷ path))
      (λ node. if is_dir node.flags then some (minus eisdir, v) else some (unlink v local node))
      (lookup-IsError fuel v (c ∷ path)) (λ node. remove_found-refuses v local node away)

rmdir_found-refuses :
    (v : Vfs) (local : Ptr) (node : Node) (opened : Option (ℤ × Node)) (rounds : ℕ)
    → NotLinked v local
    → Refused v (
        if not (is_dir node.flags) then some (minus enotdir, v) else (do
          (ret, dir) ← opened
          if not (is_zero ret) then some (minus eio, v) else (do
            busy ← has_entries rounds v.nodes dir
            if busy then some (minus enotempty, v) else some (unlink v local node))))
rmdir_found-refuses v local node none rounds away = elim (Bool-cases (is_dir node.flags)) [
  | inl e ↦ rw e tt
  | inr e ↦ rw e (refl, refl)
]
rmdir_found-refuses v local node (some (ret, dir)) rounds away =
    rw (unlink-refuses v local node away) (elim (Bool-cases (is_dir node.flags)) [
      | inr e ↦ rw e (refl, refl)
      | inl e ↦ elim (Bool-cases (is_zero ret)) [
        | inr failed_open ↦ rw (e, failed_open) (refl, refl)
        | inl ok ↦ elim (Option-cases (has_entries rounds v.nodes dir)) [
          | inl endless ↦ rw (e, ok, endless) tt
          | inr (true, some_entry) ↦ rw (e, ok, some_entry) (refl, refl)
          | inr (false, empty) ↦ rw (e, ok, empty) (refl, refl)
        ]
      ]
    ])

-- If no child list in memory holds the address of its local variable, `vfs_rmdir` returns an
-- error and changes nothing, wherever it has a result.
pub rmdir-refuses :
    (fuel rounds : ℕ) (v : Vfs) (local : Ptr) (path : List ℕ)
    → NotLinked v local
    → Refused v (rmdir fuel rounds v local path)
unfolding rmdir
rmdir-refuses fuel rounds v local [] away = (refl, refl)
rmdir-refuses fuel rounds v local (c ∷ path) away =
    lookup-refuses v (lookup fuel v (c ∷ path))
      (λ node. if not (is_dir node.flags) then some (minus enotdir, v) else (do
        (ret, dir) ← opendir fuel v (c ∷ path)
        if not (is_zero ret) then some (minus eio, v) else (do
          busy ← has_entries rounds v.nodes dir
          if busy then some (minus enotempty, v) else some (unlink v local node))))
      (lookup-IsError fuel v (c ∷ path))
      (λ node. rmdir_found-refuses v local node (opendir fuel v (c ∷ path)) rounds away)

-- `vfs_stat` of a file that is found.
pub stat-found :
    (fuel : ℕ) (v : Vfs) (path : List ℕ) (node : Node)
    → lookup fuel v path ≡ found node
    → stat fuel v path ≡ some (pos 0, node.size, node.flags)
unfolding stat
stat-found fuel v path node e = rw (stat, e) refl
