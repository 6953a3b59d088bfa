-- ===== src/Sched/Sleep.antt =====
-- Lists of threads that are linked by their `next_sleeping` fields, in kernel/sched.c.
pub mod Steps
use reta_os.Prelude.{◌≡◌, ◌≢◌, refl, sym, inl, inr, List, [], ◌∷◌, ◌++◌, ◌==◌, Bool-cases}
use reta_os.Sched.{Ptr, Thread, modify}
use reta_os.Sched.Chains.{NotIn, Distinct, modify_self, modify_other}

-- The `next_sleeping` fields lead from `p` through `qs` to NULL.
abbrev pub SleepChain : (Ptr → Thread) → Ptr → List Ptr → Type 0
SleepChain m p [] = p ≡ 0
SleepChain m p (q ∷ qs) = (p ≡ q) × (q ≢ 0) × SleepChain m (m q).next_sleeping qs

-- None of the threads of the first list is in the second one.
abbrev pub Apart : List Ptr → List Ptr → Type 0
Apart [] qs = Unit {0}
Apart (p ∷ ps) qs = NotIn p qs × Apart ps qs

pub last_of : Ptr → List Ptr → Ptr
last_of f [] = f
last_of f (g ∷ gs) = last_of g gs

-- Where `ptr` points when the threads of the list are behind it.
unfoldable pub ptr_behind : List Ptr → Ptr
ptr_behind [] = 0
ptr_behind (f ∷ fs) = last_of f fs

unfoldable pub first_of : List Ptr → Ptr
first_of [] = 0
first_of (p ∷ ps) = p

pub modify-field {ℓ} :
    {A : Type ℓ} (g : Thread → A) (m : Ptr → Thread) (p q : Ptr) (f : Thread → Thread)
    → ((t : Thread) → g (f t) ≡ g t)
    → g (modify m p f q) ≡ g (m q)
unfolding modify
modify-field g m p q f keeps = elim (Bool-cases (q == p)) [
  | inl e ↦ rw e (keeps (m q))
  | inr e ↦ rw e refl
]

pub SleepChain-keeps :
    (m : Ptr → Thread) (p : Ptr) (f : Thread → Thread) (r : Ptr) (qs : List Ptr)
    → ((t : Thread) → (f t).next_sleeping ≡ t.next_sleeping)
    → SleepChain m r qs
    → SleepChain (modify m p f) r qs
SleepChain-keeps m p f r [] keeps c = c
SleepChain-keeps m p f r (q ∷ qs) keeps c = (
  c.0,
  c.1,
  rw (modify-field (λ t. t.next_sleeping) m p q f keeps)
      (SleepChain-keeps m p f (m q).next_sleeping qs keeps c.2),
)

SleepChain-outside :
    (m : Ptr → Thread) (p : Ptr) (f : Thread → Thread) (r : Ptr) (qs : List Ptr)
    → NotIn p qs
    → SleepChain m r qs
    → SleepChain (modify m p f) r qs
SleepChain-outside m p f r [] out c = c
SleepChain-outside m p f r (q ∷ qs) out c = (
  c.0,
  c.1,
  rw (modify_other m p q f out.0) (SleepChain-outside m p f (m q).next_sleeping qs out.1 c.2),
)

-- Behind the threads of `front` comes the first one of the rest.
pub SleepChain-next :
    (m : Ptr → Thread) (r : Ptr) (front : List Ptr) (p : Ptr) (ps : List Ptr)
    → SleepChain m r (front ++ (p ∷ ps))
    → ((m p).next_sleeping ≡ first_of ps) × (p ≢ 0)
unfolding first_of
SleepChain-next m r [] p [] c = (c.2, c.1)
SleepChain-next m r [] p (q ∷ ps) c = (c.2.0, c.1)
SleepChain-next m r (f ∷ front) p ps c = SleepChain-next m (m f).next_sleeping front p ps c.2

pub last_of-ne_zero :
    (m : Ptr → Thread) (r f : Ptr) (fs ps : List Ptr)
    → SleepChain m r (f ∷ (fs ++ ps))
    → last_of f fs ≢ 0
unfolding last_of
last_of-ne_zero m r f [] ps c = c.1
last_of-ne_zero m r f (g ∷ gs) ps c = last_of-ne_zero m (m f).next_sleeping g gs ps c.2

last_of-NotIn : (p f : Ptr) (fs ps : List Ptr) → NotIn p (f ∷ (fs ++ ps)) → last_of f fs ≢ p
unfolding last_of
last_of-NotIn p f [] ps out = out.0
last_of-NotIn p f (g ∷ gs) ps out = last_of-NotIn p g gs ps out.1

-- Taking the thread behind `f ∷ fs` out of the list.
pub SleepChain-cut :
    (m : Ptr → Thread) (r f : Ptr) (fs : List Ptr) (p : Ptr) (ps : List Ptr)
    → SleepChain m r (f ∷ (fs ++ (p ∷ ps)))
    → Distinct (f ∷ (fs ++ (p ∷ ps)))
    → SleepChain
        (modify m (last_of f fs) (λ t. record t { next_sleeping = (m p).next_sleeping }))
        r
        (f ∷ (fs ++ ps))
unfolding last_of
SleepChain-cut m r f [] p ps c d =
    let cut = λ (t : Thread). record t { next_sleeping = (m p).next_sleeping } in
    (
      c.0,
      c.1,
      rw (modify_self m f cut) (SleepChain-outside m f cut (m p).next_sleeping ps d.0.1 c.2.2),
    )
SleepChain-cut m r f (g ∷ gs) p ps c d =
    let cut = λ (t : Thread). record t { next_sleeping = (m p).next_sleeping } in
    let other : f ≢ last_of g gs = λ e. last_of-NotIn f g gs (p ∷ ps) d.0 (sym e) in
    (
      c.0,
      c.1,
      rw (modify_other m (last_of g gs) f cut other)
          (SleepChain-cut m (m f).next_sleeping g gs p ps c.2 d.1),
    )

NotIn-without :
    (x : Ptr) (front : List Ptr) (p : Ptr) (ps : List Ptr)
    → NotIn x (front ++ (p ∷ ps))
    → NotIn x (front ++ ps)
NotIn-without x [] p ps out = out.1
NotIn-without x (f ∷ front) p ps out = (out.0, NotIn-without x front p ps out.1)

pub Distinct-without :
    (front : List Ptr) (p : Ptr) (ps : List Ptr)
    → Distinct (front ++ (p ∷ ps))
    → Distinct (front ++ ps) × NotIn p ps
Distinct-without [] p ps d = (d.1, d.0)
Distinct-without (f ∷ front) p ps d =
    let rest = Distinct-without front p ps d.1 in ((NotIn-without f front p ps d.0, rest.0), rest.1)

pub Apart-cons : (p : Ptr) (ps qs : List Ptr) → NotIn p ps → Apart ps qs → Apart ps (p ∷ qs)
Apart-cons p [] qs out apart = tt
Apart-cons p (x ∷ ps) qs out apart =
    ((λ e. out.0 (sym e), apart.0), Apart-cons p ps qs out.1 apart.1)

last_of-add_last : (f : Ptr) (fs : List Ptr) (p : Ptr) → last_of f (fs ++ (p ∷ [])) ≡ p
unfolding last_of
last_of-add_last f [] p = refl
last_of-add_last f (g ∷ gs) p = last_of-add_last g gs p

pub ptr_behind-add_last : (front : List Ptr) (p : Ptr) → ptr_behind (front ++ (p ∷ [])) ≡ p
unfolding ptr_behind
ptr_behind-add_last [] p = unfold last_of in refl
ptr_behind-add_last (f ∷ front) p = last_of-add_last f front p
