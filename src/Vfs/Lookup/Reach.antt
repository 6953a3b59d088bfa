-- ===== src/Vfs/Lookup/Reach.antt =====
-- What a lookup of kernel/vfs.c depends on: the nodes that can be reached from the root.
use reta_os.Prelude.{
  ℕ, zero, suc, ◌≡◌, refl, ap, ◌∙◌, subst, ◌⊎◌, inl, inr, Bool, true, Option, none, some, List, [],
  ◌∷◌, arith, ◌==◌, if◌then◌else◌, Bool-cases, Option-cases,
}
use reta_os.Prelude.Int.{is_zero}
use reta_os.Vfs.Node.{Node, Vfs, Ptr, is_lnk, same_name}
use reta_os.Vfs.Lookup.{
  Found, lookup, walk, find_child, step_down, clobbered, dot, dot_dot, through_link, read_link,
  components,
}

abbrev pub AllLive : (Ptr → Bool) → List Ptr → Type 0
AllLive live [] = Unit {0}
AllLive live (p ∷ ps) = (live p ≡ true) × AllLive live ps

-- The pointers of a node lead to live nodes.
abbrev pub Points : (Ptr → Bool) → Node → Type 0
Points live n = AllLive live n.children × ((n.parent ≡ 0) ⊎ (live n.parent ≡ true))

-- A set of addresses that holds all that can be reached from the root.
pub record IsClosed (v : Vfs) (live : Ptr → Bool) : Type 0 where
  pub root : Points live v.root
  pub nodes : (p : Ptr) → live p ≡ true → Points live (v.nodes p)

-- Two states that agree on the root and on the live nodes.
pub record Agree (live : Ptr → Bool) (v w : Vfs) : Type 0 where
  pub root : w.root ≡ v.root
  pub nodes : (p : Ptr) → live p ≡ true → w.nodes p ≡ v.nodes p

-- What a search through children gives, if anything, has only live pointers.
abbrev PointsAt : (Ptr → Bool) → Option Node → Type 0
PointsAt live none = Unit {0}
PointsAt live (some n) = Points live n

find_child-Agree :
    {v w : Vfs} {live : Ptr → Bool} (ps : List Ptr) (name : List ℕ)
    → IsClosed v live
    → Agree live v w
    → AllLive live ps
    → (find_child w.nodes ps name ≡ find_child v.nodes ps name)
      × PointsAt live (find_child v.nodes ps name)
unfolding find_child
find_child-Agree [] name closed agree all = (refl, tt)
find_child-Agree {v = v} {w = w} (p ∷ ps) name closed agree all =
    let (same, points) = find_child-Agree ps name closed agree all.1 in
    rw (agree.nodes p all.0) (elim (Bool-cases (same_name (v.nodes p).name name)) [
      | inl e ↦ rw e (refl, closed.nodes p all.0)
      | inr e ↦ rw e (same, points)
    ])

step_down-Agree :
    {v w : Vfs} {live : Ptr → Bool} (n : Node) (c : List ℕ)
    → IsClosed v live
    → Agree live v w
    → Points live n
    → (step_down w n c ≡ step_down v n c) × PointsAt live (step_down v n c)
unfolding step_down clobbered
step_down-Agree {v = v} {w = w} n c closed agree points =
    let (same, at) = find_child-Agree n.children c closed agree points.0 in
    elim (Option-cases (n.ops.finddir)) [
      | inl e ↦ rw e (same, at)
      | inr (finddir, e) ↦ elim (Bool-cases (is_zero (finddir c).0)) [
        | inr ret ↦ rw (e, ret) (same, at)
        | inl ret ↦ elim (Option-cases (finddir c).1) [
          | inl stored ↦ rw (e, ret, stored) (refl, (tt, inl refl))
          | inr (p, stored) ↦ rw (e, ret, stored) (refl, (tt, inl refl))
        ]
      ]
    ]

up-Points :
    {v : Vfs} {live : Ptr → Bool} (n : Node)
    → IsClosed v live
    → Points live n
    → Points live (if n.parent == 0 then n else v.nodes n.parent)
up-Points {v = v} {live = live} n closed points = elim (Bool-cases (n.parent == 0)) [
  | inl z ↦ rw z points
  | inr z ↦
      let live_parent : live n.parent ≡ true = ground (arith, points.1) in
      rw z (closed.nodes n.parent live_parent)
]

up-Agree :
    {v w : Vfs} {live : Ptr → Bool} (n : Node)
    → Agree live v w
    → Points live n
    → (if n.parent == 0 then n else w.nodes n.parent)
      ≡ (if n.parent == 0 then n else v.nodes n.parent)
up-Agree {live = live} n agree points = elim (Bool-cases (n.parent == 0)) [
  | inl z ↦ rw z refl
  | inr z ↦
      let live_parent : live n.parent ≡ true = ground (arith, points.1) in
      rw (z, agree.nodes n.parent live_parent) refl
]

walk-Agree :
    {v w : Vfs} {live : Ptr → Bool} (f g : List ℕ → Found) (n : Node) (cs : List (List ℕ))
    → IsClosed v live
    → Agree live v w
    → ((target : List ℕ) → g target ≡ f target)
    → Points live n
    → walk w g n cs ≡ walk v f n cs
unfolding walk
walk-Agree f g n [] closed agree follow points = refl
walk-Agree {v = v} {w = w} {live = live} f g n (c ∷ cs) closed agree follow points =
    let stay = walk-Agree f g n cs closed agree follow points in
    let up =
      walk-Agree f g (if n.parent == 0 then n else v.nodes n.parent) cs closed agree follow
        (up-Points n closed points) in
    let (same, at) = step_down-Agree n c closed agree points in
    elim (Bool-cases (same_name c dot)) [
      | inl e ↦ rw e stay
      | inr e ↦ elim (Bool-cases (same_name c dot_dot)) [
        | inl d ↦ rw (e, d, up-Agree n agree points) up
        | inr d ↦ elim (Option-cases (step_down v n c)) [
          | inl s ↦ rw (same, e, d, s) refl
          | inr (child, s) ↦
              let at' : PointsAt live (some child) = subst (PointsAt live) s at in
              let down = walk-Agree f g child cs closed agree follow at' in
              rw (same, e, d, s)
                (elim (Bool-cases (is_lnk child.flags)) [
                  | inr plain ↦ rw plain down
                  | inl link ↦ elim (Option-cases (read_link child)) [
                    | inl unread ↦ rw (link, unread) refl
                    | inr (target, text) ↦ rw (link, text) (follow (through_link target cs))
                  ]
                ])
        ]
      ]
    ]

-- If two states have the same root and agree on the nodes in a set of addresses that holds all
-- that can be reached from the root, then every lookup gives the same in both.
pub lookup-Agree :
    {v w : Vfs} {live : Ptr → Bool} (fuel : ℕ) (path : List ℕ)
    → IsClosed v live
    → Agree live v w
    → lookup fuel w path ≡ lookup fuel v path
unfolding lookup
lookup-Agree zero path closed agree = refl
lookup-Agree {v = v} {w = w} (suc fuel) path closed agree =
    ap (λ root. walk w (λ t. lookup fuel w t) root (components path)) agree.root
    ∙ walk-Agree (λ t. lookup fuel v t) (λ t. lookup fuel w t) v.root (components path) closed agree
        (λ t. lookup-Agree fuel t closed agree) closed.root
