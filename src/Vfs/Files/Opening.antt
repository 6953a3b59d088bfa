-- ===== src/Vfs/Files/Opening.antt =====
-- `vfs_open` of kernel/vfs.c where O_CREAT is given.
use reta_os.Prelude.{
  ℕ, zero, suc, ◌≡◌, refl, sym, ◌∙◌, ◌≢◌, Bool, true, false, not, Option, none, some, List, arith,
  if◌then◌else◌,
}
use reta_os.Prelude.Int.{ℤ, minus, is_neg, is_zero}
use reta_os.Prelude.Maybe.{◌>>=◌}
use reta_os.Vfs.Node.{
  Node, Vfs, Ptr, any_of, ft_dir, enotdir, enoent, eacces, enametoolong, emfile, o_excl, o_creat,
}
use reta_os.Vfs.Lookup.{Found, found, failed, unfinished, lookup}
use reta_os.Vfs.Lookup.Walks.{IsError, lookup-IsError}
use reta_os.Vfs.Lookup.Reach.{IsClosed, lookup-Agree}
use reta_os.Vfs.Create.{create, link_new, split_path, allocated}
use reta_os.Vfs.Create.Lost.{Fresh, create-ends, link_new-Agree}
use reta_os.Vfs.Files.{open_new, open_file, open_node, access_error, free_slot}

-- If there is a result, it is a negative error number.
abbrev pub Fails : Option (ℤ × Vfs) → Type 0
Fails none = Unit {0}
Fails (some r) = is_neg r.0 ≡ true

minus-Fails : (v : Vfs) (e : ℕ) → e ≢ 0 → Fails (some (minus e, v))
minus-Fails v zero nonzero = absurd (nonzero refl)
minus-Fails v (suc e) nonzero = refl

if-Fails : (b : Bool) (x y : Option (ℤ × Vfs)) → Fails x → Fails y → Fails (if b then x else y)
if-Fails true x y px py = px
if-Fails false x y px py = py

-- What is done with the result of a lookup.
lookup-Fails :
    (v : Vfs) (f : Found) (k : Node → Option (ℤ × Vfs))
    → IsError f
    → ((n : Node) → f ≡ found n → Fails (k n))
    → Fails (elim f [ unfinished ↦ none | failed e ↦ some (minus e, v) | found n ↦ k n ])
lookup-Fails v unfinished k error rest = tt
lookup-Fails v (failed e) k error rest = minus-Fails v e error
lookup-Fails v (found n) k error rest = rest n refl

-- The end of `open_new`, behind the call of `create`.
after_create : ℕ → List ℕ → (flags fd : ℕ) → Option (ℤ × Vfs) → Option (ℤ × Vfs)
after_create fuel path flags fd created = do
  (ret, v') ← created
  if not (is_zero ret) then some (ret, v') else (elim (lookup fuel v' path) [
    | unfinished ↦ none
    | failed e ↦ some (minus e, v')
    | found node ↦ some (open_node v' fd flags node)
  ])

after_create-Fails :
    (fuel : ℕ) (v : Vfs) (path : List ℕ) (flags fd : ℕ)
    → ((parent child node : Node) (e : ℕ)
        → lookup fuel v path ≡ failed e
        → lookup fuel (link_new v (v.new_nodes 0) (v.new_nodes 1) parent child) path ≡ found node
        → is_neg
            (open_node (link_new v (v.new_nodes 0) (v.new_nodes 1) parent child) fd flags node).0
          ≡ true)
    → Fails (after_create fuel path flags fd (create fuel v path 0o666))
unfolding after_create
after_create-Fails fuel v path flags fd opened =
    create-ends (λ r. Fails (after_create fuel path flags fd r)) v tt (error v)
      (λ e n nonzero. error (allocated n v) e nonzero) fuel path 0o666
      (λ parent child e missing.
        let v' = link_new v (v.new_nodes 0) (v.new_nodes 1) parent child in
        lookup-Fails v' (lookup fuel v' path) (λ node. some (open_node v' fd flags node))
          (lookup-IsError fuel v' path) (λ node e'. opened parent child node e missing e'))
  where
    error : (w : Vfs) (e : ℕ) → e ≢ 0 → Fails (after_create fuel path flags fd (some (minus e, w)))
    error w zero nonzero = absurd (nonzero refl)
    error w (suc e) nonzero = refl

open_new-Fails :
    (fuel : ℕ) (v : Vfs) (path : List ℕ) (flags fd : ℕ)
    → Fails (after_create fuel path flags fd (create fuel v path 0o666))
    → Fails (open_new fuel v path flags fd)
unfolding open_new after_create
open_new-Fails fuel v path flags fd fails = at_split (split_path path)
  where
    at_parent :
        (f : Found)
        → Fails (elim f [
          | unfinished ↦ none
          | failed e ↦ some (minus enoent, v)
          | found parent ↦
              if not (any_of parent.flags ft_dir)
              then some (minus enotdir, v)
              else (if not (any_of parent.flags 0o222)
                  then some (minus eacces, v)
                  else after_create fuel path flags fd (create fuel v path 0o666))
        ])
    at_parent unfinished = tt
    at_parent (failed e) = refl
    at_parent (found parent) =
        if-Fails (not (any_of parent.flags ft_dir)) _ _ refl
          (if-Fails (not (any_of parent.flags 0o222)) _ _ refl fails)

    at_split :
        (s : Option (List ℕ × List ℕ))
        → Fails (elim s [
          | none ↦ some (minus enametoolong, v)
          | some (dir, name) ↦ elim (lookup fuel v dir) [
            | unfinished ↦ none
            | failed e ↦ some (minus enoent, v)
            | found parent ↦
                if not (any_of parent.flags ft_dir)
                then some (minus enotdir, v)
                else (if not (any_of parent.flags 0o222)
                    then some (minus eacces, v)
                    else after_create fuel path flags fd (create fuel v path 0o666))
          ]
        ])
    at_split none = refl
    at_split (some (dir, name)) = at_parent (lookup fuel v dir)

open_file-Fails :
    (fuel : ℕ) (v : Vfs) (path : List ℕ) (flags : ℕ)
    → ((node : Node) (fd : ℕ)
        → lookup fuel v path ≡ found node
        → is_neg (open_node v fd flags node).0 ≡ true)
    → ((fd e : ℕ) → lookup fuel v path ≡ failed e → Fails (open_new fuel v path flags fd))
    → Fails (open_file fuel v path flags)
unfolding open_file
open_file-Fails fuel v path flags at_node at_new = at_slot (free_slot v.open_files 0)
  where
    at_lookup :
        (fd : ℕ) (f : Found)
        → lookup fuel v path ≡ f
        → Fails (elim f [
          | unfinished ↦ none
          | failed e ↦
              if any_of flags o_creat then open_new fuel v path flags fd else some (minus enoent, v)
          | found node ↦ some (open_node v fd flags node)
        ])
    at_lookup fd unfinished e = tt
    at_lookup fd (failed k) e = if-Fails (any_of flags o_creat) _ _ (at_new fd k e) refl
    at_lookup fd (found n) e = at_node n fd e

    at_slot :
        (slot : Option ℕ)
        → Fails (elim slot [
          | none ↦ some (minus emfile, v)
          | some fd ↦ elim (lookup fuel v path) [
            | unfinished ↦ none
            | failed e ↦
                if any_of flags o_creat
                then open_new fuel v path flags fd
                else some (minus enoent, v)
            | found node ↦ some (open_node v fd flags node)
          ]
        ])
    at_slot none = refl
    at_slot (some fd) = at_lookup fd (lookup fuel v path) refl

open_node-exclusive :
    (v : Vfs) (fd flags : ℕ) (node : Node)
    → any_of flags o_excl ≡ true
    → any_of flags o_creat ≡ true
    → is_neg (open_node v fd flags node).0 ≡ true
unfolding open_node access_error
open_node-exclusive v fd flags node excl creat = ground arith

-- With both O_CREAT and O_EXCL `vfs_open` returns a negative error number wherever it has a
-- result, whether the path is found or not.
open_exclusive-Fails :
    (fuel : ℕ) (v : Vfs) (path : List ℕ) (flags : ℕ)
    → any_of flags o_excl ≡ true
    → any_of flags o_creat ≡ true
    → Fails (open_file fuel v path flags)
open_exclusive-Fails fuel v path flags excl creat =
    open_file-Fails fuel v path flags (λ node fd e. open_node-exclusive v fd flags node excl creat)
      (λ fd e missing. open_new-Fails fuel v path flags fd (
        after_create-Fails fuel v path flags fd (λ parent child node k gone there.
          open_node-exclusive (link_new v (v.new_nodes 0) (v.new_nodes 1) parent child) fd flags
            node excl creat)))

-- If the next two addresses that `kmalloc` returns belong to no node that can be reached from the
-- root, and the path is not found, then `vfs_open` returns a negative error number wherever it
-- has a result, with O_CREAT or without it.
pub open_missing-Fails :
    {v : Vfs} {live : Ptr → Bool} (fuel : ℕ) (path : List ℕ) (flags e : ℕ)
    → IsClosed v live
    → Fresh v live
    → lookup fuel v path ≡ failed e
    → Fails (open_file fuel v path flags)
open_missing-Fails {v = v} fuel path flags e closed fresh missing =
    open_file-Fails fuel v path flags (λ node fd there. absurd (both node e (sym there ∙ missing)))
      (λ fd k gone. open_new-Fails fuel v path flags fd (
        after_create-Fails fuel v path flags fd (λ parent child node k' gone' there.
          let unseen = lookup-Agree fuel path closed (link_new-Agree parent child fresh) in
          absurd (both node e (sym there ∙ (unseen ∙ missing))))))
  where
    both : (n : Node) (k : ℕ) → found n ≢ failed k
    both n k same = ground (arith, same)
