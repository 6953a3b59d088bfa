-- ===== src/Sched/Chains.antt =====
-- Lists of threads that are linked by their `next` fields.
use reta_os.Prelude.{◌≡◌, refl, ◌≢◌, inl, inr, true, false, List, [], ◌∷◌, arith, ◌==◌, Bool-cases}
use reta_os.Sched.{Ptr, Thread, modify}

-- The `next` fields lead from `p` through `qs` to NULL.
abbrev pub Chain : (Ptr → Thread) → Ptr → List Ptr → Type 0
Chain m p [] = p ≡ 0
Chain m p (q ∷ qs) = (p ≡ q) × (q ≢ 0) × Chain m (m q).next qs

abbrev pub NotIn : Ptr → List Ptr → Type 0
NotIn p [] = Unit {0}
NotIn p (q ∷ qs) = (q ≢ p) × NotIn p qs

-- No thread stands in the list twice.
abbrev pub Distinct : List Ptr → Type 0
Distinct [] = Unit {0}
Distinct (q ∷ qs) = NotIn q qs × Distinct qs

pub modify_self : (m : Ptr → Thread) (p : Ptr) (f : Thread → Thread) → modify m p f p ≡ f (m p)
unfolding modify
modify_self m p f = let same : (p == p) ≡ true = ground arith in rw same refl

pub modify_other :
    (m : Ptr → Thread) (p q : Ptr) (f : Thread → Thread) → q ≢ p → modify m p f q ≡ m q
unfolding modify
modify_other m p q f other = let e : (q == p) ≡ false = ground (arith, other) in rw e refl

-- A write to a thread outside the list keeps the list.
pub Chain-outside :
    (m : Ptr → Thread) (p : Ptr) (f : Thread → Thread) (r : Ptr) (qs : List Ptr)
    → NotIn p qs
    → Chain m r qs
    → Chain (modify m p f) r qs
Chain-outside m p f r [] out c = c
Chain-outside m p f r (q ∷ qs) out c =
    (c.0, c.1, rw (modify_other m p q f out.0) (Chain-outside m p f (m q).next qs out.1 c.2))

modify-next :
    (m : Ptr → Thread) (p q : Ptr) (f : Thread → Thread)
    → ((t : Thread) → (f t).next ≡ t.next)
    → (modify m p f q).next ≡ (m q).next
unfolding modify
modify-next m p q f keeps = elim (Bool-cases (q == p)) [
  | inl e ↦ rw e (keeps (m q))
  | inr e ↦ rw e refl
]

-- A write that keeps the `next` field keeps every list.
pub Chain-keeps :
    (m : Ptr → Thread) (p : Ptr) (f : Thread → Thread) (r : Ptr) (qs : List Ptr)
    → ((t : Thread) → (f t).next ≡ t.next)
    → Chain m r qs
    → Chain (modify m p f) r qs
Chain-keeps m p f r [] keeps c = c
Chain-keeps m p f r (q ∷ qs) keeps c =
    (c.0, c.1, rw (modify-next m p q f keeps) (Chain-keeps m p f (m q).next qs keeps c.2))
