-- ===== src/Vfs/Lookup/Walks.antt =====
-- How `vfs_lookup` of kernel/vfs.c composes, and what it makes of links.
use reta_os.Prelude.{
  ℕ, zero, suc, ◌≡◌, refl, ◌≢◌, inl, inr, true, false, Option, none, some, List, [], ◌∷◌, ◌++◌,
  arith, ◌==◌, if◌then◌else◌, Bool-cases, Option-cases,
}
use reta_os.Vfs.Node.{Node, Vfs, is_lnk, same_name}
use reta_os.Vfs.Lookup.{
  Found, found, failed, unfinished, walk, lookup, step_down, dot, dot_dot, through_link, read_link,
  components,
}

abbrev pub Follow : Type 0
Follow = List ℕ → Found

-- No link is followed.
abbrev pub no_links : Follow
no_links target = unfinished

-- A walk over some components that follows no link and finds a node goes on from that node with
-- the components behind them, for any way to follow links.
pub walk-append :
    (v : Vfs) (follow : Follow) (n m : Node) (xs ys : List (List ℕ))
    → walk v no_links n xs ≡ found m
    → walk v follow n (xs ++ ys) ≡ walk v follow m ys
unfolding walk
walk-append v follow n m [] ys e = let same : n ≡ m = cc in rw same
walk-append v follow n m (x ∷ xs) ys e = ground (
  arith,
  walk-append v follow n m xs ys,
  walk-append v follow (if n.parent == 0 then n else v.nodes n.parent) m xs ys,
  walk-append v follow (step_or n (step_down v n x)) m xs ys,
)
  where
    step_or : Node → Option Node → Node
    step_or d none = d
    step_or d (some k) = k

-- Where a component that is neither "." nor ".." leads to a link, the result does not depend on
-- what stands in the path behind the next component.
walk_link-drops_rest :
    (v : Vfs) (follow : Follow) (n child : Node) (c next : List ℕ) (rest other : List (List ℕ))
    → same_name c dot ≡ false
    → same_name c dot_dot ≡ false
    → step_down v n c ≡ some child
    → is_lnk child.flags ≡ true
    → walk v follow n (c ∷ next ∷ rest) ≡ walk v follow n (c ∷ next ∷ other)
unfolding walk through_link
walk_link-drops_rest v follow n child c next rest other not_dot not_dots down link =
    rw (not_dot, not_dots, down, link) refl

-- An error is not 0.
abbrev pub IsError : Found → Type 0
IsError (failed e) = e ≢ 0
IsError (found n) = Unit {0}
IsError unfinished = Unit {0}

walk-IsError :
    (v : Vfs) (follow : Follow) (n : Node) (cs : List (List ℕ))
    → ((target : List ℕ) → IsError (follow target))
    → IsError (walk v follow n cs)
unfolding walk
walk-IsError v follow n [] rest = tt
walk-IsError v follow n (c ∷ cs) rest =
    let stay = walk-IsError v follow n cs rest in
    let up = walk-IsError v follow (if n.parent == 0 then n else v.nodes n.parent) cs rest in
    elim (Bool-cases (same_name c dot)) [
      | inl e ↦ rw e stay
      | inr e ↦ elim (Bool-cases (same_name c dot_dot)) [
        | inl d ↦ rw (e, d) up
        | inr d ↦ elim (Option-cases (step_down v n c)) [
          | inl none_found ↦ rw (e, d, none_found) (λ z. omega arith)
          | inr (child, down) ↦
              let on = walk-IsError v follow child cs rest in
              elim (Bool-cases (is_lnk child.flags)) [
                | inr plain ↦ rw (e, d, down, plain) on
                | inl link ↦ elim (Option-cases (read_link child)) [
                  | inl unread ↦ rw (e, d, down, link, unread) (λ z. omega arith)
                  | inr (target, text) ↦ rw (e, d, down, link, text) (rest (through_link target cs))
                ]
              ]
        ]
      ]
    ]

pub lookup-IsError : (fuel : ℕ) (v : Vfs) (path : List ℕ) → IsError (lookup fuel v path)
unfolding lookup
lookup-IsError zero v path = tt
lookup-IsError (suc fuel) v path =
    walk-IsError v (λ target. lookup fuel v target) v.root (components path)
      (λ target. lookup-IsError fuel v target)
