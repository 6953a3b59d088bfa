-- ===== src/Sched/Sleep/Steps.antt =====
-- One round of the loop in `check_sleeping_threads` of kernel/sched.c, for a thread that is due.
use reta_os.Prelude.{
  ◌≡◌, ◌≢◌, refl, sym, ap, subst, ◌∙◌, false, inl, inr, List, [], ◌∷◌, ◌++◌, arith, ◌==◌,
  if◌then◌else◌, Bool-cases,
}
use reta_os.Sched.{Ptr, Thread, thread_ready, Sched, modify, write_thread, add_thread, assign}
use reta_os.Sched.Chains.{Chain, NotIn, Distinct, modify_self, Chain-outside, Chain-keeps}
use reta_os.Sched.Sleep.{
  SleepChain, Apart, ptr_behind, last_of, modify-field, SleepChain-keeps, last_of-ne_zero,
  SleepChain-cut, Distinct-without, Apart-cons,
}

-- The list of sleeping threads is `front ++ ps`, of which `front` has been passed, and the ready
-- queue is `qs`.
abbrev pub At : Sched → (front ps qs : List Ptr) → Type 0
At s front ps qs =
    SleepChain s.threads s.sleeping_threads (front ++ ps)
    × Chain s.threads s.ready_queue qs
    × Distinct (front ++ ps)
    × Apart ps qs

-- `*ptr = current->next_sleeping`, and the rest of the branch for a thread that is due.
abbrev pub cut_out : List Ptr → Ptr → Sched → Sched
cut_out front p s = assign (ptr_behind front) (s.threads p).next_sleeping s

abbrev pub wake_one : List Ptr → Ptr → Sched → Sched
wake_one front p s =
    add_thread p (write_thread p (λ u. record u { state = thread_ready }) (cut_out front p s))

assign-thread :
    (ptr value : Ptr) (s : Sched)
    → ptr ≢ 0
    → assign ptr value s ≡ write_thread ptr (λ t. record t { next_sleeping = value }) s
unfolding assign
assign-thread ptr value s there = let e : (ptr == 0) ≡ false = ground (arith, there) in rw e refl

pub cut_out-At :
    (s : Sched) (front : List Ptr) (p : Ptr) (ps qs : List Ptr)
    → At s front (p ∷ ps) qs
    → At (cut_out front p s) front ps qs
unfolding assign ptr_behind
cut_out-At s [] p ps qs (c, ready, once, apart) =
    let e : (s.threads p).next_sleeping ≡ (s.threads p).next_sleeping = refl in
    (c.2, ready, once.1, apart.1)
cut_out-At s (f ∷ fs) p ps qs (c, ready, once, apart) =
    let cut = λ (t : Thread). record t { next_sleeping = (s.threads p).next_sleeping } in
    let there : last_of f fs ≢ 0 = last_of-ne_zero s.threads s.sleeping_threads f fs (p ∷ ps) c in
    subst (λ (r : Sched). At r (f ∷ fs) ps qs)
      (sym (assign-thread (last_of f fs) (s.threads p).next_sleeping s there))
      (
        SleepChain-cut s.threads s.sleeping_threads f fs p ps c once,
        Chain-keeps s.threads (last_of f fs) cut s.ready_queue qs (λ t. refl) ready,
        (Distinct-without (f ∷ fs) p ps once).0,
        apart.1,
      )

cut_out-Same :
    (s : Sched) (ptr value q : Ptr)
    → ((assign ptr value s).timer_ticks ≡ s.timer_ticks)
      × (((assign ptr value s).threads q).wakeup_time ≡ (s.threads q).wakeup_time)
      × (((assign ptr value s).threads q).state ≡ (s.threads q).state)
unfolding assign
cut_out-Same s ptr value q =
    let cut = λ (t : Thread). record t { next_sleeping = value } in
    elim (Bool-cases (ptr == 0)) [
      | inl e ↦ rw e (refl, refl, refl)
      | inr e ↦ rw e (
        refl,
        modify-field (λ t. t.wakeup_time) s.threads ptr q cut (λ t. refl),
        modify-field (λ t. t.state) s.threads ptr q cut (λ t. refl),
      )
    ]

add_thread-there :
    (p : Ptr) (s : Sched)
    → p ≢ 0
    → add_thread p s
      ≡ record (write_thread p (λ t. record t { next = s.ready_queue }) s) { ready_queue = p }
unfolding add_thread
add_thread-there p s there = let e : (p == 0) ≡ false = ground (arith, there) in rw e refl

-- Making the thread ready and putting it in front of the ready queue.
pub enqueue-At :
    (s : Sched) (front : List Ptr) (p : Ptr) (ps qs : List Ptr)
    → At s front ps qs
    → p ≢ 0
    → NotIn p qs
    → NotIn p ps
    → At
        (add_thread p (write_thread p (λ u. record u { state = thread_ready }) s))
        front
        ps
        (p ∷ qs)
enqueue-At s front p ps qs (c, ready, once, apart) there out behind =
    let woken = λ (t : Thread). record t { state = thread_ready } in
    let link = λ (t : Thread). record t { next = s.ready_queue } in
    let m = modify s.threads p woken in
    let c1 = SleepChain-keeps s.threads p woken s.sleeping_threads (front ++ ps) (λ t. refl) c in
    let c2 = SleepChain-keeps m p link s.sleeping_threads (front ++ ps) (λ t. refl) c1 in
    let r1 = Chain-keeps s.threads p woken s.ready_queue qs (λ t. refl) ready in
    let r2 = Chain-outside m p link s.ready_queue qs out r1 in
    let start : (modify m p link p).next ≡ s.ready_queue =
      ap (λ t. t.next) (modify_self m p link) in
    subst (λ (r : Sched). At r front ps (p ∷ qs))
      (sym (add_thread-there p (write_thread p woken s) there))
      (
        c2,
        (refl, there, subst (λ r. Chain (modify m p link) r qs) (sym start) r2),
        once,
        Apart-cons p ps qs behind apart,
      )

ready_state :
    (m : Ptr → Thread) (p q : Ptr)
    → (modify m p (λ t. record t { state = thread_ready }) q).state
      ≡ (if q == p then thread_ready else (m q).state)
unfolding modify
ready_state m p q = elim (Bool-cases (q == p)) [ inl e ↦ rw e refl | inr e ↦ rw e refl ]

enqueue-state :
    (s : Sched) (p q : Ptr)
    → p ≢ 0
    → (let s' = add_thread p (write_thread p (λ u. record u { state = thread_ready }) s) in
        (s'.timer_ticks ≡ s.timer_ticks)
        × ((s'.threads q).wakeup_time ≡ (s.threads q).wakeup_time)
        × ((s'.threads q).state ≡ (if q == p then thread_ready else (s.threads q).state)))
unfolding add_thread
enqueue-state s p q there =
    let woken = λ (t : Thread). record t { state = thread_ready } in
    let link = λ (t : Thread). record t { next = s.ready_queue } in
    let m = modify s.threads p woken in
    let e : (p == 0) ≡ false = ground (arith, there) in
    rw e (
      refl,
      modify-field (λ t. t.wakeup_time) m p q link (λ t. refl)
          ∙ modify-field (λ t. t.wakeup_time) s.threads p q woken (λ t. refl),
      modify-field (λ t. t.state) m p q link (λ t. refl) ∙ ready_state s.threads p q,
    )

pub wake_one-Same :
    (s : Sched) (front : List Ptr) (p : Ptr)
    → p ≢ 0
    → (q : Ptr)
    → ((wake_one front p s).timer_ticks ≡ s.timer_ticks)
      × (((wake_one front p s).threads q).wakeup_time ≡ (s.threads q).wakeup_time)
      × (((wake_one front p s).threads q).state
          ≡ (if q == p then thread_ready else (s.threads q).state))
wake_one-Same s front p there q =
    let cut = cut_out front p s in
    let (ticks, time, state) = cut_out-Same s (ptr_behind front) (s.threads p).next_sleeping q in
    let (ticks', time', state') = enqueue-state cut p q there in
    (ticks' ∙ ticks, time' ∙ time, state' ∙ ap (λ r. if q == p then thread_ready else r) state)
