-- ===== src/Vfs/Create/Lost.antt =====
-- What becomes of the node that `vfs_create` of kernel/vfs.c makes.
use reta_os.Prelude.{
  ℕ, ◌≡◌, refl, ◌≢◌, Bool, true, false, not, Option, none, some, List, [], ◌∷◌, arith, ◌==◌,
  if◌then◌else◌,
}
use reta_os.Prelude.Int.{ℤ, pos, minus}
use reta_os.Vfs.Node.{Node, Vfs, Ptr, any_of, ft_dir, enotdir, enomem, eexist, enametoolong, einval}
use reta_os.Vfs.Lookup.{Found, found, failed, unfinished, lookup}
use reta_os.Vfs.Lookup.Walks.{IsError, lookup-IsError}
use reta_os.Vfs.Lookup.Reach.{IsClosed, Agree, lookup-Agree}
use reta_os.Vfs.Create.{
  update, link_new, create, create_in, create_missing, create_node, allocated, split_path,
}

-- The next two addresses that `kmalloc` returns belong to no node that can be reached.
abbrev pub Fresh : Vfs → (Ptr → Bool) → Type 0
Fresh v live = (live (v.new_nodes 0) ≡ false) × (live (v.new_nodes 1) ≡ false)

pub link_new-Agree :
    {v : Vfs} {live : Ptr → Bool} (parent child : Node)
    → Fresh v live
    → Agree live v (link_new v (v.new_nodes 0) (v.new_nodes 1) parent child)
unfolding link_new allocated update
link_new-Agree {v = v} {live = live} parent child fresh = record {
  root = refl;
  nodes = λ p alive.
      let not_first : (p == v.new_nodes 0) ≡ false = apart p (v.new_nodes 0) alive fresh.0 in
      let not_second : (p == v.new_nodes 1) ≡ false = apart p (v.new_nodes 1) alive fresh.1 in
      rw (not_first, not_second) refl;
}
  where
    apart : (p q : Ptr) → live p ≡ true → live q ≡ false → (p == q) ≡ false
    apart p q alive dead = ground arith

-- The state after a result is one in which every lookup does what it did before.
abbrev pub Unseen : ℕ → Vfs → ℤ × Vfs → Type 0
Unseen fuel v r = (path : List ℕ) → lookup fuel r.1 path ≡ lookup fuel v path

abbrev pub UnseenAt : ℕ → Vfs → Option (ℤ × Vfs) → Type 0
UnseenAt fuel v none = Unit {0}
UnseenAt fuel v (some r) = Unseen fuel v r

allocated-Agree : {v : Vfs} {live : Ptr → Bool} (n : ℕ) → Agree live v (allocated n v)
unfolding allocated
allocated-Agree n = record { root = refl; nodes = λ p alive. refl }

if-ends :
    (P : Option (ℤ × Vfs) → Type 0) (b : Bool) {x y : Option (ℤ × Vfs)}
    → P x
    → P y
    → P (if b then x else y)
if-ends P true px py = px
if-ends P false px py = py

-- What holds of every end of `create` holds of its result.
module _ (P : Option (ℤ × Vfs) → Type 0) (v : Vfs) (endless : P none)
    (early : (e : ℕ) → e ≢ 0 → P (some (minus e, v)))
    (late : (e n : ℕ) → e ≢ 0 → P (some (minus e, allocated n v))) where
  create_missing-ends :
      (parent : Node) (name : List ℕ) (flags : ℕ) (file : Found)
      → ((e : ℕ) (child : Node)
          → file ≡ failed e
          → P (some (pos 0, link_new v (v.new_nodes 0) (v.new_nodes 1) parent child)))
      → P (create_missing v parent name flags file)
  unfolding create_missing
  create_missing-ends parent name flags unfinished made = endless
  create_missing-ends parent name flags (found n) made = late eexist 1 (λ z. omega arith)
  create_missing-ends parent name flags (failed e) made =
      if-ends P (v.new_nodes 1 == 0) (late enomem 2 (λ z. omega arith))
        (made e (create_node name flags) refl)

  create_in-ends :
      (name : List ℕ) (flags : ℕ) (parent file : Found)
      → IsError parent
      → ((dir child : Node) (e : ℕ)
          → file ≡ failed e
          → P (some (pos 0, link_new v (v.new_nodes 0) (v.new_nodes 1) dir child)))
      → P (create_in v name flags parent file)
  unfolding create_in
  create_in-ends name flags unfinished file error made = endless
  create_in-ends name flags (failed e) file error made = late e 1 error
  create_in-ends name flags (found dir) file error made =
      if-ends P (not (any_of dir.flags ft_dir)) (late enotdir 1 (λ z. omega arith))
        (create_missing-ends dir name flags file (λ e child missing. made dir child e missing))

  pub create-ends :
      (fuel : ℕ) (path : List ℕ) (flags : ℕ)
      → ((parent child : Node) (e : ℕ)
          → lookup fuel v path ≡ failed e
          → P (some (pos 0, link_new v (v.new_nodes 0) (v.new_nodes 1) parent child)))
      → P (create fuel v path flags)
  unfolding create
  create-ends fuel [] flags made = early einval (λ z. omega arith)
  create-ends fuel (c ∷ path) flags made = at_split (split_path (c ∷ path))
    where
      at_split :
          (s : Option (List ℕ × List ℕ))
          → P (elim s [
            | none ↦ some (minus enametoolong, v)
            | some (dir, name) ↦
                if v.new_nodes 0 == 0
                then some (minus enomem, allocated 1 v)
                else create_in v name flags (lookup fuel v dir) (lookup fuel v (c ∷ path))
          ])
      at_split none = early enametoolong (λ z. omega arith)
      at_split (some (dir, name)) =
          if-ends P (v.new_nodes 0 == 0) (late enomem 1 (λ z. omega arith)) (
            create_in-ends name flags (lookup fuel v dir) (lookup fuel v (c ∷ path))
              (lookup-IsError fuel v dir) made)

-- If the next two addresses that `kmalloc` returns belong to no node that can be reached from the
-- root, then after `vfs_create`, whatever its result, every lookup gives what it gave before: a
-- node that it made is never found.
pub create-unseen :
    {v : Vfs} {live : Ptr → Bool} (fuel : ℕ) (path : List ℕ) (flags : ℕ)
    → IsClosed v live
    → Fresh v live
    → UnseenAt fuel v (create fuel v path flags)
create-unseen {v = v} fuel path flags closed fresh =
    create-ends (UnseenAt fuel v) v tt (λ e nonzero p. refl)
      (λ e n nonzero p. lookup-Agree fuel p closed (allocated-Agree n)) fuel path flags
      (λ parent child e missing p. lookup-Agree fuel p closed (link_new-Agree parent child fresh))
